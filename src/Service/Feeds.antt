-- ===== src/Service/Feeds.antt =====
-- internal/service/feed.go
pub mod Cut
pub mod Pages
pub mod Walk
pub mod Cache
use echo_backend.Base.{Bool, true, false, Option, none, some, List, ◌++◌, if◌then◌else◌}
use echo_backend.Base.Int.{ℤ, pos}
use echo_backend.Text.{Text, codes, is_empty, trim_space, itoa}
use echo_backend.Errors.{Error, sentinel, wrapped, redis_nil, invalid_input, Result, ok, err}
use echo_backend.Effect.{M, pure, fail, ◌>>=◌, attempt}
use echo_backend.Domain.{Time, Post, FeedCursor}
use echo_backend.Database.{Database}
use echo_backend.Redis.{Redis}
use echo_backend.Repository.Feeds
use echo_backend.Service.Limits.{clamp_limit}

-- `time.Parse(time.RFC3339Nano, s)` is a parameter.
unfoldable pub parse_cursor : (Text → Result Time) → Text → Result (Option FeedCursor)
parse_cursor parse_time raw =
    let trimmed = trim_space raw in
    if is_empty trimmed then ok none else elim (parse_time trimmed) [
      | ok t ↦ ok (some (record { created_at = t }))
      | err _ ↦ err (sentinel invalid_input)
    ]

unfoldable pub cache_key : ℤ → Text
cache_key limit = codes "feed:trending:" ++ itoa limit

-- `err == redis.Nil`, which does not look through wrappings.
unfoldable pub is_nil : Error → Bool
is_nil (sentinel redis_nil) = true
is_nil _ = false

-- `60*time.Second`
abbrev pub cache_ttl : ℤ
cache_ttl = pos 60_000_000_000

module _ {W : Type 0} (db : Database W) where
  unfoldable pub latest : ℤ → Option FeedCursor → M W (List Post × Option FeedCursor)
  latest limit cursor = Feeds.latest db (clamp_limit limit) cursor

  -- `json.Marshal` and `json.Unmarshal` of a list of posts.
  module _ (redis : Redis W) (marshal : List Post → Result Text)
      (unmarshal : Text → Result (List Post)) where
    -- A payload is stored if it can be made; the error of the store is dropped.
    unfoldable pub store_payload : Text → List Post → Result Text → M W (List Post)
    store_payload key posts (ok payload) = do
      _ ← attempt (redis.set key payload cache_ttl)
      pure posts
    store_payload key posts (err _) = pure posts

    unfoldable pub load_page : ℤ → M W (List Post)
    unfolding store_payload
    load_page limit = do
      posts ← Feeds.trending db limit
      store_payload (cache_key limit) posts (marshal posts)

    -- A payload that cannot be read counts as a miss.
    unfoldable pub read_cached : ℤ → Result (List Post) → M W (List Post)
    read_cached limit (ok posts) = pure posts
    read_cached limit (err _) = load_page limit

    -- What the cache said.
    unfoldable pub after_lookup : ℤ → Result Text → M W (List Post)
    unfolding read_cached
    after_lookup limit (ok cached) = read_cached limit (unmarshal cached)
    after_lookup limit (err e) =
        if is_nil e then load_page limit else fail (wrapped (codes "get trending cache") e)

    unfoldable pub trending : ℤ → M W (List Post)
    unfolding after_lookup
    trending limit = do
      let bounded = clamp_limit limit
      cached ← attempt (redis.get (cache_key bounded))
      after_lookup bounded cached
