-- ===== src/Tests/World.antt =====
-- A database, a Redis server, a clock and ciphers in memory, which meet the laws that the theorems
-- ask for. A call never fails for a reason of the server's own, but a row may be a duplicate.
use mathlib.Core.List.Permᴰ
use echo_backend.Base.{
  ℕ, ◌+◌, ◌≡◌, drop, All-perm, All-mono, IsOrdering, IsOrdered, Permᴰ, refl, Bool, true, false,
  ◌&&◌, ◌||◌, Option, none, some, List, [], ◌∷◌, ◌++◌, inl, inr, ◌==◌, ltb, Elem, count, select,
  rewrite, take, Bool-cases, if◌then◌else◌,
}
use echo_backend.Base.Int.{pos_part}
use echo_backend.Text.{Text, codes, text_eq}
use echo_backend.Errors.{
  Result, ok, err, sentinel, failure, record_not_found, is_error, sentinel_eq,
}
use echo_backend.Effect.{M}
use echo_backend.Effect.Rules.{returned, failed, branch}
use echo_backend.Domain.{Uuid, Time, User, Report}
use echo_backend.Database.{
  Table, Database, Tables, IsTable, IsDatabase, Writes, Finds, Transacts, with_reaction,
  without_posts,
}
use echo_backend.System.{System, IsSystem}

pub record World : Type 0 where
  pub tables : Tables
  pub keys : Text → Option Text
  pub clock : Time
  pub next_id : Uuid

abbrev pub view : World → Tables
view w = w.tables

abbrev pub live_keys : World → Text → Option Text
live_keys w = w.keys

first_match : {Row : Type 0} → (Row → Bool) → List Row → Option Row
first_match p [] = none
first_match p (r ∷ rows) = let rest = first_match p rows in if p r then some r else rest

-- A row stands before the rows that it comes before.
insert : {Row : Type 0} → (Row → Row → Bool) → Row → List Row → List Row
insert before r [] = r ∷ []
insert before r (s ∷ rows) =
    let rest = insert before r rows in if before s r then s ∷ rest else r ∷ s ∷ rows

sort : {Row : Type 0} → (Row → Row → Bool) → List Row → List Row
sort before [] = []
sort before (r ∷ rows) = insert before r (sort before rows)

insert-perm :
    {Row : Type 0} (before : Row → Row → Bool) (r : Row) (rows : List Row)
    → Permᴰ (r ∷ rows) (insert before r rows)
unfolding insert
insert-perm before r [] = Permᴰ.refl (r ∷ [])
insert-perm before r (s ∷ rows) = elim (Bool-cases (before s r)) [
  | inl e ↦ rw e (Permᴰ.trans (Permᴰ.swap refl refl) (Permᴰ.cons refl (insert-perm before r rows)))
  | inr e ↦ rw e (Permᴰ.refl (r ∷ s ∷ rows))
]

sort-perm :
    {Row : Type 0} (before : Row → Row → Bool) (rows : List Row) → Permᴰ rows (sort before rows)
unfolding sort
sort-perm before [] = Permᴰ.nil
sort-perm before (r ∷ rows) =
    Permᴰ.trans (Permᴰ.cons refl (sort-perm before rows)) (insert-perm before r (sort before rows))

insert-IsOrdered :
    {Row : Type 0} (before : Row → Row → Bool) (h : IsOrdering before) (r : Row) (rows : List Row)
    → IsOrdered before rows
    → IsOrdered before (insert before r rows)
unfolding insert
insert-IsOrdered before h r [] o = (tt, tt)
insert-IsOrdered before h r (s ∷ rows) o = elim (Bool-cases (before s r)) [
  | inl e ↦ rw e (
    All-perm (λ y. before y s ≡ false) (insert-perm before r rows) (h.not_before s r e, o.0),
    insert-IsOrdered before h r rows o.1,
  )
  | inr e ↦ rw e (
    (
      e,
      All-mono (λ y. before y s ≡ false) (λ y. before y r ≡ false) rows o.0
          (λ y k. h.between y s r k e),
    ),
    o,
  )
]

sort-IsOrdered :
    {Row : Type 0} (before : Row → Row → Bool) (h : IsOrdering before) (rows : List Row)
    → IsOrdered before (sort before rows)
unfolding sort
sort-IsOrdered before h [] = tt
sort-IsOrdered before h (r ∷ rows) =
    insert-IsOrdered before h r (sort before rows) (sort-IsOrdered before h rows)

abbrev fetched : {Row : Type 0} → Option Row → M World Row
fetched (some r) w = (ok r, w)
fetched none w = (err (sentinel record_not_found), w)

-- What `first_match` finds.
abbrev IsMatch : {Row : Type 0} → (Row → Bool) → List Row → Option Row → Type 0
IsMatch p rows (some r) = Elem r rows × (p r ≡ true)
IsMatch p rows none = count p rows ≡ 0

IsMatch-further :
    {Row : Type 0} (p : Row → Bool) (s : Row) (rows : List Row) (o : Option Row)
    → p s ≡ false
    → IsMatch p rows o
    → IsMatch p (s ∷ rows) o
IsMatch-further p s rows (some r) other h = (inr h.0, h.1)
IsMatch-further p s rows none other h = rw other h

first_match-IsMatch :
    {Row : Type 0} (p : Row → Bool) (rows : List Row) → IsMatch p rows (first_match p rows)
unfolding first_match
first_match-IsMatch p [] = refl
first_match-IsMatch p (s ∷ rows) = elim (Bool-cases (p s)) [
  | inl here ↦ rw here (inl refl, here)
  | inr other ↦
      rw (other, first_match)
        (IsMatch-further p s rows (first_match p rows) other (first_match-IsMatch p rows))
]

fetched-Finds :
    {Row : Type 0} (p : Row → Bool) (rows : List Row) (o : Option Row) (w : World)
    → IsMatch p rows o
    → Finds view w p rows (fetched o w)
unfolding is_error sentinel_eq
fetched-Finds p rows (some r) w h = returned _ _ _ _ (h.0, h.1, refl)
fetched-Finds p rows none w h = failed _ _ _ _ (λ _. h, refl, refl)

-- A failed body is undone.
commit : {A : Type 0} → World → Result A × World → Result A × World
commit w (ok a, w') = (ok a, w')
commit w (err e, w') = (err e, record w' { tables = w.tables })

commit-Transacts : {A : Type 0} (w : World) (x : Result A × World) → Transacts view w x (commit w x)
unfolding commit
commit-Transacts w (ok a, w') = (refl, refl)
commit-Transacts w (err e, w') = refl

duplicate : M World (Unit {0})
duplicate w = (err (failure (codes "duplicate key value violates unique constraint")), w)

module _ {Row : Type 0} (rows : Tables → List Row) (put : Tables → List Row → Tables)
    (clash : Row → Row → Bool) where
  -- A row that does not clash with another is added.
  add : Row → M World (Unit {0})
  unfolding duplicate
  add r w =
      (if ltb 0 (count (clash r) (rows w.tables))
          then duplicate
          else (λ w. (ok tt, record w { tables = put w.tables (rows w.tables ++ r ∷ []) })))
        w

  pub table : Table World Row
  unfolding first_match sort insert add
  table = record {
    create = add;
    first = λ p w. fetched (first_match p (rows w.tables)) w;
    update = λ p f w. (
      ok (count p (rows w.tables)),
      record w { tables = put w.tables (rewrite p f (rows w.tables)) },
    );
    count_rows = λ p w. (ok (count p (rows w.tables)), w);
    find = λ p before limit offset w. (
      ok (take (pos_part limit) (drop (pos_part offset) (sort before (select p (rows w.tables))))),
      w,
    );
  }

  add_lem : (r : Row) (w : World) → Writes view w (put (view w) (rows (view w) ++ r ∷ [])) (add r w)
  unfolding add duplicate
  add_lem r w =
      branch _ _ (ltb 0 (count (clash r) (rows w.tables))) _ _ w (λ _. failed _ _ _ _ refl)
        (λ _. returned _ _ _ _ refl)

  pub table-IsTable : IsTable view table rows put
  unfolding table
  table-IsTable = record {
    create_lem = add_lem;
    first_lem = λ p w. fetched-Finds p _ _ w (first_match-IsMatch p (rows w.tables));
    update_lem = λ p f w. returned _ _ _ _ (refl, refl);
    count_lem = λ p w. returned _ _ _ _ (refl, refl);
    find_lem = λ p before limit offset w h more. returned _ _ _ _ (
      (
        sort before (select p (rows w.tables)),
        sort-perm before _,
        sort-IsOrdered before h (select p (rows w.tables)),
        refl,
      ),
      refl,
    );
  }

abbrev user_clash : User → User → Bool
user_clash u v = u.id == v.id || text_eq u.pseudonym v.pseudonym

abbrev report_clash : Report → Report → Bool
report_clash r q = r.id == q.id || (r.post_id == q.post_id && r.reporter_id == q.reporter_id)

-- The database, with the number that the transaction's handle tells as its `RowsAffected`.
unfoldable pub database : ℕ → Database World
unfolding table commit text_eq
database n = record {
  users = table (λ t. t.users) (λ t rows. record t { users = rows }) user_clash;
  posts = table (λ t. t.posts) (λ t rows. record t { posts = rows }) (λ p q. p.id == q.id);
  replies = table (λ t. t.replies) (λ t rows. record t { replies = rows }) (λ p q. p.id == q.id);
  reactions =
      table (λ t. t.reactions) (λ t rows. record t { reactions = rows })
        (λ p q. p.user_id == q.user_id && p.post_id == q.post_id);
  reports = table (λ t. t.reports) (λ t rows. record t { reports = rows }) report_clash;
  delete_posts =
      λ p w. (ok (count p w.tables.posts), record w { tables = without_posts view p w.tables });
  create_reaction = λ r w. (ok tt, record w { tables = with_reaction view r w.clock w.tables });
  handle_rows_affected = λ _. n;
  transaction = λ A body w. commit w (body w);
}

pub database-IsDatabase : (n : ℕ) → IsDatabase view (database n)
unfolding database
database-IsDatabase n = record {
  users_table = table-IsTable _ _ _;
  posts_table = table-IsTable _ _ _;
  replies_table = table-IsTable _ _ _;
  reactions_table = table-IsTable _ _ _;
  reports_table = table-IsTable _ _ _;
  delete_posts_lem = λ p w. returned _ _ _ _ (refl, refl);
  filled_time = λ r w. w.clock;
  create_reaction_lem = λ r w. returned _ _ _ _ refl;
  begun = λ w. w;
  begun_reads = λ w. refl;
  transaction_lem = λ A body w. commit-Transacts w (body w);
}

unfoldable pub system : System World
system = record {
  now = λ w. (w.clock, record w { clock = w.clock + 1 });
  new_uuid = λ w. (w.next_id, record w { next_id = w.next_id + 1 });
}

pub system-IsSystem : IsSystem view system
unfolding system
system-IsSystem = record { now_reads = λ w. refl; new_uuid_reads = λ w. refl }

pub system_keeps : IsSystem live_keys system
unfolding system
system_keeps = record { now_reads = λ w. refl; new_uuid_reads = λ w. refl }
