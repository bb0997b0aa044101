-- ===== src/Service/Feeds/Pages.antt =====
-- The pages of the latest feed: internal/service/feed.go over internal/repository/feed.go.
use mathlib.Core.List.Permᴰ
use echo_backend.Base.{
  ℕ, zero, suc, ◌≤◌, ◌<◌, ◌≡◌, refl, Bool-cases, true, false, inl, inr, Option, none, some, List,
  [], ◌∷◌, ◌++◌, ◌==◌, ltb, arith, take, drop, length, select, select-select, select-perm,
  count-perm, count-select, take-append-drop, All, All-select, All-perm, All-select_of, Permᴰ,
  IsOrdered, IsOrdered-take, length-take,
}
use mathlib.Core.Path.{subst}
use echo_backend.Base.Int.{ℤ, pos, negsuc}
use echo_backend.Effect.{Ensures}
use echo_backend.Effect.Rules.{bind, returned}
use echo_backend.Domain.{Post, FeedCursor}
use echo_backend.Database.{Database, Tables, IsDatabase}
use echo_backend.Repository.Feeds
use echo_backend.Repository.Feeds.{newer, is_before, next_cursor}
use echo_backend.Repository.Feeds.Order.{newer-IsOrdering}
use echo_backend.Service.Limits.{clamp_limit}
use echo_backend.Service.Feeds.{latest}
use echo_backend.Service.Feeds.Cut.{IsStamped, IsShown, IsSpread, IsOrdered-IsDescending, cut_lem}

-- The posts that a request with the next cursor would find: none without a cursor.
abbrev pub left : Option FeedCursor → List Post → List Post
left none posts = []
left (some c) posts = select (is_before (some c)) posts

-- A page of the feed: newest first, at most 100 posts, and every post that the cursor lets through
-- is either on the page or left for the next cursor, once.
abbrev pub IsTurn : Option FeedCursor → List Post → List Post × Option FeedCursor → Type 0
IsTurn cursor posts (page, next) =
    Permᴰ (select (is_before cursor) posts) (page ++ left next posts)
    × IsOrdered newer page
    × (length page ≤ 100)
    × (next ≡ next_cursor page)

pub clamp_limit_lem : (limit : ℤ) → (n : ℕ) × (clamp_limit limit ≡ pos (suc n)) × (n < 100)
unfolding clamp_limit
clamp_limit_lem (negsuc n) = (19, ground arith, omega arith)
clamp_limit_lem (pos zero) = (19, ground arith, omega arith)
clamp_limit_lem (pos (suc n)) = elim (Bool-cases (ltb 100 (suc n))) [
  | inl large ↦ (99, ground arith, omega arith)
  | inr small ↦ (n, ground arith, ground arith)
]

-- A post before a later cursor is before this one.
is_before-later :
    (cursor : Option FeedCursor) (c : FeedCursor) (p q : Post)
    → is_before cursor p ≡ true
    → c.created_at ≤ p.created_at
    → 0 < c.created_at
    → is_before (some c) q ≡ true
    → is_before cursor q ≡ true
unfolding is_before
is_before-later none c p q h below positive passed = ground arith
is_before-later (some d) c p q h below positive passed = ground arith

is_before-shown :
    (cursor : Option FeedCursor) (p : Post) → is_before cursor p ≡ true → p.is_hidden ≡ false
unfolding is_before
is_before-shown none p h = ground arith
is_before-shown (some c) p h = ground arith

module _ (cursor : Option FeedCursor) (posts : List Post) (stamped : All IsStamped posts)
    (spread : IsSpread posts) where
  ordered-IsShown :
      (ordered : List Post) → Permᴰ (select (is_before cursor) posts) ordered → All IsShown ordered
  ordered-IsShown ordered perm = All-perm IsShown perm (
      All-select_of IsStamped IsShown (is_before cursor) posts stamped
        (λ p s h. (s, is_before-shown cursor p h)))

  ordered-IsSpread :
      (ordered : List Post) → Permᴰ (select (is_before cursor) posts) ordered → IsSpread ordered
  ordered-IsSpread ordered perm t = omega (
    arith,
    count-perm (λ p. p.created_at == t) perm,
    count-select (λ p. p.created_at == t) (is_before cursor) posts,
    spread t,
  )

  ordered-Turn :
      (n : ℕ) (ordered : List Post)
      → Permᴰ (select (is_before cursor) posts) ordered
      → IsOrdered newer ordered
      → Permᴰ
          (select (is_before cursor) posts)
          (take (suc n) ordered ++ left (next_cursor (take (suc n) ordered)) posts)
  unfolding next_cursor
  ordered-Turn n [] perm o = perm
  ordered-Turn n (p ∷ ps) perm o =
      let (c, next, below, positive, cut) =
        cut_lem n p ps (ordered-IsShown (p ∷ ps) perm)
          (IsOrdered-IsDescending (p ∷ ps) o (ordered-IsSpread (p ∷ ps) perm)) in
      let found : is_before cursor p ≡ true =
        (All-perm (λ q. is_before cursor q ≡ true) perm (All-select (is_before cursor) posts)).0 in
      let within : select (is_before (some c)) (select (is_before cursor) posts)
          ≡ select (is_before (some c)) posts =
        select-select (is_before (some c)) (is_before cursor) posts
          (λ q. is_before-later cursor c p q found below positive) in
      let rest : Permᴰ (drop (suc n) (p ∷ ps)) (select (is_before (some c)) posts) =
        rw (cut, within) at (Permᴰ.symm (select-perm (is_before (some c)) perm)) in
      let parts : Permᴰ (p ∷ ps) (take (suc n) (p ∷ ps) ++ select (is_before (some c)) posts) =
        subst (λ xs. Permᴰ xs (take (suc n) (p ∷ ps) ++ select (is_before (some c)) posts))
          (take-append-drop (suc n) (p ∷ ps)) (Permᴰ.append_left (take (suc n) (p ∷ ps)) rest) in
      rw next (Permᴰ.trans perm parts)

module _ {W : Type 0} (db : Database W) (view : W → Tables) (d : IsDatabase view db) where
  -- Where no two posts have one creation time, and times are whole microseconds, a page of the
  -- latest feed is ordered with the newest post first and has at most 100 posts; the visible posts
  -- that its cursor lets through are those on the page and those that the next cursor lets through,
  -- each once. No row changes.
  pub latest-IsTurn :
      (limit : ℤ) (cursor : Option FeedCursor) (w : W)
      → All IsStamped (view w).posts
      → IsSpread (view w).posts
      → Ensures
          (λ page w'. IsTurn cursor (view w).posts page × (view w' ≡ view w))
          (λ _ w'. view w' ≡ view w)
          (latest db limit cursor w)
  unfolding latest Feeds.latest
  latest-IsTurn limit cursor w stamped spread =
      let (n, clamped, small) = clamp_limit_lem limit in
      rw clamped (
        bind _ _ _ _ _ w
          (d.posts_table.find_lem (is_before cursor) newer (suc n) 0 w newer-IsOrdering
            (omega arith))
          λ page w₁ h₁.
            let (ordered, perm, o, taken) = h₁.0 in
            returned _ _ _ _ (
              (
                rw taken (ordered-Turn cursor (view w).posts stamped spread n ordered perm o),
                rw taken (IsOrdered-take newer (suc n) ordered o),
                rw taken (omega (arith, length-take (suc n) ordered)),
                refl,
              ),
              h₁.1,
            ))
