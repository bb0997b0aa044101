-- ===== src/Service/Feeds/Walk.antt =====
-- A client that follows the cursors of the latest feed to its end.
use mathlib.Core.List.Permᴰ
use echo_backend.Base.{
  ℕ, zero, suc, ◌<◌, ◌≡◌, sym, Option, none, some, List, [], ◌∷◌, ◌++◌, arith, length, length-perm,
  length-append, select, All, Permᴰ,
}
use echo_backend.Base.Int.{ℤ}
use echo_backend.Errors.{Result}
use echo_backend.Effect.{M, pure, ◌>>=◌, Ensures}
use echo_backend.Effect.Rules.{bind, returned}
use echo_backend.Domain.{Post, FeedCursor}
use echo_backend.Database.{Database, Tables, IsDatabase}
use echo_backend.Repository.Feeds.{is_before, next_cursor}
use echo_backend.Service.Feeds.{latest}
use echo_backend.Service.Feeds.Cut.{IsStamped, IsSpread}
use echo_backend.Service.Feeds.Pages.{IsTurn, latest-IsTurn}

module _ {W : Type 0} (db : Database W) where
  -- At most this many pages, from a cursor on.
  unfoldable pub walk : ℕ → ℤ → Option FeedCursor → M W (List Post)
  walk zero limit cursor = pure []
  walk (suc pages) limit cursor = do
    page ← latest db limit cursor
    elim page.1 [
      | none ↦ pure page.0
      | some c ↦ walk pages limit (some c) >>= λ rest. pure (page.0 ++ rest)
    ]

  module _ (view : W → Tables) (d : IsDatabase view db) where
    next_cursor-cons :
        (page : List Post) (c : FeedCursor) → next_cursor page ≡ some c → 0 < length page
    unfolding next_cursor
    next_cursor-cons [] c e = cc
    next_cursor-cons (p ∷ ps) c e = omega arith

    -- What a walk from a cursor gets, of the posts of this world.
    abbrev Walks : W → Option FeedCursor → Result (List Post) × W → Type 0
    Walks w cursor =
        Ensures
          (λ posts w'. Permᴰ (select (is_before cursor) (view w).posts) posts × (view w' ≡ view w))
          (λ _ w'. view w' ≡ view w)

    -- The rest of a walk after a page.
    follow : ℕ → ℤ → List Post → Option FeedCursor → M W (List Post)
    follow pages limit page none = pure page
    follow pages limit page (some c) = walk pages limit (some c) >>= λ rest. pure (page ++ rest)

    follow-Walks :
        (pages : ℕ) (limit : ℤ) (cursor : Option FeedCursor) (w w₁ : W) (page : List Post)
        (next : Option FeedCursor)
        → IsTurn cursor (view w).posts (page, next)
        → view w₁ ≡ view w
        → length (select (is_before cursor) (view w).posts) < suc pages
        → ((c : FeedCursor)
            → length (select (is_before (some c)) (view w).posts) < pages
            → Walks w (some c) (walk pages limit (some c) w₁))
        → Walks w cursor (follow pages limit page next w₁)
    unfolding follow
    follow-Walks pages limit cursor w w₁ page none (perm, _, _, _) same enough rest =
        returned _ _ _ _ (Permᴰ.trans perm (Permᴰ.append-nil page), same)
    follow-Walks pages limit cursor w w₁ page (some c) (perm, _, _, next) same enough rest =
        let some_rows = next_cursor-cons page c (sym next) in
        bind _ _ _ _ _ w₁
          (rest c (
            omega (
              arith,
              enough,
              some_rows,
              length-perm perm,
              length-append page (select (is_before (some c)) (view w).posts),
            )))
          λ posts w₂ h₂. returned _ _ _ _ (Permᴰ.trans perm (Permᴰ.append_left page h₂.0), h₂.1)

    -- Where creation times differ and are whole microseconds, a client that follows the cursors,
    -- with any limit, for as many pages as there are posts to find and one more, gets each visible
    -- post that its first cursor lets through, exactly once, unless a query fails.
    pub walk-perm :
        (pages : ℕ) (limit : ℤ) (cursor : Option FeedCursor) (w : W)
        → All IsStamped (view w).posts
        → IsSpread (view w).posts
        → length (select (is_before cursor) (view w).posts) < pages
        → Ensures
            (λ posts w'.
              Permᴰ (select (is_before cursor) (view w).posts) posts × (view w' ≡ view w))
            (λ _ w'. view w' ≡ view w)
            (walk pages limit cursor w)
    unfolding walk follow
    walk-perm zero limit cursor w stamped spread enough = absurd (omega arith)
    walk-perm (suc pages) limit cursor w stamped spread enough =
        bind _ _ _ _ _ w (latest-IsTurn db view d limit cursor w stamped spread) λ page w₁ h₁.
          follow-Walks pages limit cursor w w₁ page.0 page.1 h₁.0 h₁.1 enough λ c fewer.
            rw h₁.1 at
              (walk-perm pages limit (some c) w₁ (rw h₁.1 stamped) (rw h₁.1 spread) (rw h₁.1 fewer))
