-- ===== src/Database.antt =====
-- The database behind gorm, which the repositories call. Nothing of gorm or of PostgreSQL is
-- defined: a table is a record of operations on an unknown world, and what the code relies on are
-- the laws of `IsTable` and `IsDatabase`. They take a row to be read back as it was written, while
-- PostgreSQL rounds the instants of its TIMESTAMPTZ columns to microseconds.

pub mod Laws
use echo_backend.Base.{
  ℕ, ◌<◌, ◌≡◌, IsOrdering, IsPage, Bool, true, false, not, List, [], ◌∷◌, ◌++◌, count, select,
  rewrite, Elem, ◌==◌, ◌&&◌, ltb, if◌then◌else◌,
}
use echo_backend.Base.Int.{ℤ, pos}
use echo_backend.Errors.{not_found, record_not_found, is_error, Result, ok, err}
use echo_backend.Effect.{M, Ensures}
use echo_backend.Domain.{Time, User, Post, Reply, Reaction, Report}

-- gorm on the table of one model.
pub record Table (W Row : Type 0) : Type 0 where
  -- `Create(&row)`
  pub create : Row → M W (Unit {0})
  -- `Where(test).First(&row)`, also `Take`
  pub first : (Row → Bool) → M W Row
  -- `Where(test).Updates(change)`, with its `RowsAffected`
  pub update : (Row → Bool) → (Row → Row) → M W ℕ
  -- `Where(test).Count(&n)`
  pub count_rows : (Row → Bool) → M W ℕ
  -- `Where(test).Order(before).Limit(limit).Offset(offset).Find(&rows)`
  pub find : (Row → Bool) → (Row → Row → Bool) → ℤ → ℤ → M W (List Row)

pub record Database (W : Type 0) : Type 1 where
  pub users : Table W User
  pub posts : Table W Post
  pub replies : Table W Reply
  pub reactions : Table W Reaction
  pub reports : Table W Report
  -- `Where(test).Delete(&domain.Post{})`
  pub delete_posts : (Post → Bool) → M W ℕ
  -- `Clauses(OnConflict{DoNothing: true}).Create(&reaction)`
  pub create_reaction : Reaction → M W (Unit {0})
  -- `tx.RowsAffected`: the field of the transaction's own handle, not of a statement made from it
  pub handle_rows_affected : W → ℕ
  -- `Transaction(body)`
  pub transaction : (A : Type 0) → M W A → M W A

-- The rows of each table.
pub record Tables : Type 0 where
  pub users : List User
  pub posts : List Post
  pub replies : List Reply
  pub reactions : List Reaction
  pub reports : List Report

module _ {W : Type 0} (view : W → Tables) where
  -- A call reads: it may fail, and leaves every row alone.
  abbrev pub Reads : {A : Type 0} → W → Result A × W → Type 0
  Reads w = Ensures (λ _ w'. view w' ≡ view w) (λ _ w'. view w' ≡ view w)

  -- A call that succeeds leaves these tables behind, and one that fails changes nothing.
  abbrev pub Writes : {A : Type 0} → W → Tables → Result A × W → Type 0
  Writes w t = Ensures (λ _ w'. view w' ≡ t) (λ _ w'. view w' ≡ view w)

  -- A call that succeeds returns the number of rows that passed the test, too.
  abbrev pub Affects : W → ℕ → Tables → Result ℕ × W → Type 0
  Affects w n t = Ensures (λ k w'. (k ≡ n) × (view w' ≡ t)) (λ _ w'. view w' ≡ view w)

  -- A row that is found passes the test, and the error for no row is told only if none does. The
  -- error is not one of the package domain.
  abbrev pub Finds : {Row : Type 0} → W → (Row → Bool) → List Row → Result Row × W → Type 0
  Finds w p rows =
      Ensures (λ r w'. Elem r rows × (p r ≡ true) × (view w' ≡ view w))
        (λ e w'.
          (is_error e record_not_found ≡ true → count p rows ≡ 0)
          × (is_error e not_found ≡ false)
          × (view w' ≡ view w))

  pub record IsTable {Row : Type 0} (t : Table W Row) (rows : Tables → List Row)
      (with_rows : Tables → List Row → Tables) : Type 0 where
    pub create_lem :
        (r : Row) (w : W) → Writes w (with_rows (view w) (rows (view w) ++ r ∷ [])) (t.create r w)
    pub first_lem : (p : Row → Bool) (w : W) → Finds w p (rows (view w)) (t.first p w)
    pub update_lem :
        (p : Row → Bool) (f : Row → Row) (w : W)
        → Affects w
            (count p (rows (view w)))
            (with_rows (view w) (rewrite p f (rows (view w))))
            (t.update p f w)
    pub count_lem :
        (p : Row → Bool) (w : W) → Affects w (count p (rows (view w))) (view w) (t.count_rows p w)
    pub find_lem :
        (p : Row → Bool) (before : Row → Row → Bool) (limit offset : ℕ) (w : W)
        → IsOrdering before
        → 0 < limit
        → Ensures
            (λ page w'. IsPage before p limit offset (rows (view w)) page × (view w' ≡ view w))
            (λ _ w'. view w' ≡ view w)
            (t.find p before (pos limit) (pos offset) w)

  -- A body that fails is rolled back, and so is one whose transaction cannot begin or commit.
  -- Otherwise the body ran on a world with the same rows, and its writes stay.
  abbrev pub Transacts : {A : Type 0} → W → Result A × W → Result A × W → Type 0
  Transacts w _ (err _, w') = view w' ≡ view w
  Transacts w (ok a, w₁) (ok b, w') = (b ≡ a) × (view w' ≡ view w₁)
  Transacts w (err _, w₁) (ok b, w') = ⊥

  -- Two reactions of one user to one post.
  abbrev pub same_reaction : Reaction → Reaction → Bool
  same_reaction r s = r.user_id == s.user_id && r.post_id == s.post_id

  -- The rows that are left when posts are deleted: migrations/000001_init.up.sql and
  -- 000002_moderation.up.sql delete what refers to them.
  abbrev pub without_posts : (Post → Bool) → Tables → Tables
  without_posts p t =
      let gone : ℕ → Bool = λ k. ltb 0 (count (λ (q : Post). q.id == k && p q) t.posts) in
      record t {
        posts = select (λ q. not (p q)) t.posts;
        replies = select (λ r. not (gone r.post_id)) t.replies;
        reactions = select (λ r. not (gone r.post_id)) t.reactions;
        reports = select (λ r. not (gone r.post_id)) t.reports;
      }

  -- A reaction is inserted, with the time that gorm fills in, if its user has none to the post.
  abbrev pub with_reaction : Reaction → Time → Tables → Tables
  with_reaction r at t =
      if ltb 0 (count (same_reaction r) t.reactions)
      then t
      else record t { reactions = t.reactions ++ (record r { created_at = at }) ∷ [] }

  pub record IsDatabase (db : Database W) : Type 1 where
    pub users_table : IsTable db.users (λ t. t.users) (λ t rows. record t { users = rows })
    pub posts_table : IsTable db.posts (λ t. t.posts) (λ t rows. record t { posts = rows })
    pub replies_table : IsTable db.replies (λ t. t.replies) (λ t rows. record t { replies = rows })
    pub reactions_table :
        IsTable db.reactions (λ t. t.reactions) (λ t rows. record t { reactions = rows })
    pub reports_table : IsTable db.reports (λ t. t.reports) (λ t rows. record t { reports = rows })
    pub delete_posts_lem :
        (p : Post → Bool) (w : W)
        → Affects w (count p (view w).posts) (without_posts p (view w)) (db.delete_posts p w)
    pub filled_time : Reaction → W → Time
    pub create_reaction_lem :
        (r : Reaction) (w : W)
        → Writes w (with_reaction r (filled_time r w) (view w)) (db.create_reaction r w)
    -- The world on which the body of a transaction runs.
    pub begun : W → W
    pub begun_reads : (w : W) → view (begun w) ≡ view w
    pub transaction_lem :
        (A : Type 0) (body : M W A) (w : W) → Transacts w (body (begun w)) (db.transaction A body w)
