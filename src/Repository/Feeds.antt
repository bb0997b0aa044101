-- ===== src/Repository/Feeds.antt =====
-- internal/repository/feed.go
pub mod Order
use echo_backend.Base.{
  ◌-◌, ◌%◌, Bool, not, ◌&&◌, ◌||◌, Option, none, some, List, [], ◌∷◌, ◌==◌, ltb,
}
use echo_backend.Base.Int.{ℤ, pos, ltb_ℤ}
use echo_backend.Effect.{M, pure, ◌>>=◌}
use echo_backend.Domain.{Time, Post, FeedCursor}
use echo_backend.Database.{Database}

-- `t.Truncate(time.Microsecond)` on an instant.
unfoldable pub truncate_micro : Time → Time
truncate_micro t = t - t % 1000

-- `WHERE is_hidden = false`, with `AND created_at < ?` if there is a cursor that is not zero.
unfoldable pub is_before : Option FeedCursor → Post → Bool
is_before none p = not p.is_hidden
is_before (some c) p = not p.is_hidden && (c.created_at == 0 || ltb p.created_at c.created_at)

-- `ORDER BY created_at DESC, id DESC`
unfoldable pub newer : Post → Post → Bool
newer p q = ltb q.created_at p.created_at || (p.created_at == q.created_at && ltb q.id p.id)

-- `ORDER BY score DESC, created_at DESC`
unfoldable pub more_popular : Post → Post → Bool
more_popular p q =
    ltb_ℤ q.score p.score || (not (ltb_ℤ p.score q.score) && ltb q.created_at p.created_at)

-- The cursor after the last post of a page.
unfoldable pub next_cursor : List Post → Option FeedCursor
unfolding truncate_micro
next_cursor [] = none
next_cursor (p ∷ []) = some (record { created_at = truncate_micro p.created_at })
next_cursor (p ∷ q ∷ rest) = next_cursor (q ∷ rest)

module _ {W : Type 0} (db : Database W) where
  unfoldable pub latest : ℤ → Option FeedCursor → M W (List Post × Option FeedCursor)
  unfolding is_before newer next_cursor
  latest limit cursor = do
    posts ← db.posts.find (is_before cursor) newer limit (pos 0)
    pure (posts, next_cursor posts)

  unfoldable pub trending : ℤ → M W (List Post)
  unfolding more_popular
  trending limit = db.posts.find (λ p. not p.is_hidden) more_popular limit (pos 0)
