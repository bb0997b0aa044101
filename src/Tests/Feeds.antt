-- ===== src/Tests/Feeds.antt =====
-- The theorems on the feeds at a concrete table, and the posts that a tie hides.
use mathlib.Core.Path.{subst}
use echo_backend.Handler.Feeds.{next_value}
use echo_backend.Handler.Feeds as LatestHandler
use echo_backend.Handler.Feeds.Cursor.{IsReadable, latest-next_value}
use echo_backend.Handler.Services.{FeedService}
use echo_backend.Handler.Errors.{bound, respond}
use echo_backend.Handler.Request.{page_limit}
use echo_backend.Base.{
  ℕ, ◌≤◌, ◌≡◌, refl, false, Option, none, some, List, [], ◌∷◌, arith, Permᴰ, select,
}
use echo_backend.Base.Int.{pos}
use echo_backend.Text.{Text, codes, is_empty, trim_space}
use echo_backend.Errors.{Result, ok, err, sentinel, invalid_input}
use echo_backend.Effect.{Ensures, ◌>>=◌}
use echo_backend.Domain.{Uuid, Time, Post, FeedCursor}
use echo_backend.Repository.Feeds.{is_before, next_cursor, newer, more_popular, truncate_micro}
use echo_backend.Repository.Feeds
use echo_backend.Service.Limits.{clamp_limit}
use echo_backend.Service.Feeds.{latest, trending, cache_key}
use echo_backend.Service.Feeds.Cut.{IsSpread}
use echo_backend.Service.Feeds.Pages.{IsTurn, latest-IsTurn}
use echo_backend.Service.Feeds.Walk.{walk, walk-perm}
use echo_backend.Service.Feeds.Cache.{IsTrending, trending-IsTrending}
use echo_backend.Tests.World.{World, view, live_keys, database, database-IsDatabase}
use echo_backend.Tests.Ciphers.{redis, redis-IsRedis}

abbrev post_at : Uuid → Time → Post
post_at id created_at = record {
  id = id;
  author_id = 7;
  pseudonym = codes "rapid-owl-123";
  content = codes "hello";
  is_hidden = false;
  reply_count = 0;
  score = pos 0;
  created_at = created_at;
}

abbrev with_posts : List Post → World
with_posts posts = record {
  tables = record { users = []; posts = posts; replies = []; reactions = []; reports = [] };
  keys = λ _. none;
  clock = 9000;
  next_id = 100;
}

abbrev spread_world : World
spread_world = with_posts (post_at 1 1000 ∷ post_at 2 3000 ∷ post_at 3 2000 ∷ [])

spread : IsSpread (view spread_world).posts
spread t = ground arith

latest-IsTurn_example :
    Ensures
      (λ page w'. IsTurn none (view spread_world).posts page × (view w' ≡ view spread_world))
      (λ _ w'. view w' ≡ view spread_world)
      (latest (database 0) (pos 2) none spread_world)
latest-IsTurn_example =
    latest-IsTurn (database 0) view (database-IsDatabase 0) (pos 2) none spread_world
      ((omega arith, refl), ((omega arith, refl), ((omega arith, refl), tt))) spread

walk-perm_example :
    Ensures
      (λ posts w'.
        Permᴰ (select (is_before none) (view spread_world).posts) posts
        × (view w' ≡ view spread_world))
      (λ _ w'. view w' ≡ view spread_world)
      (walk (database 0) 4 (pos 1) none spread_world)
unfolding is_before
walk-perm_example =
    walk-perm (database 0) view (database-IsDatabase 0) 4 (pos 1) none spread_world
      ((omega arith, refl), ((omega arith, refl), ((omega arith, refl), tt))) spread (omega arith)

trending-IsTrending_example :
    (n : ℕ) × (1 ≤ n)
    × (n ≤ 100)
    × (clamp_limit (pos 2) ≡ pos n)
    × IsTrending
        (database 0)
        view
        (database-IsDatabase 0)
        redis
        live_keys
        redis-IsRedis
        (λ posts. ok [])
        (λ payload. err (sentinel invalid_input))
        n
        spread_world
        (redis.get (cache_key (pos n)) spread_world)
        (trending
          (database 0)
          redis
          (λ posts. ok [])
          (λ payload. err (sentinel invalid_input))
          (pos 2)
          spread_world)
trending-IsTrending_example =
    trending-IsTrending (database 0) view (database-IsDatabase 0) redis live_keys redis-IsRedis
      (λ posts. ok []) (λ payload. err (sentinel invalid_input)) (pos 2) spread_world

-- All three posts by pages of one, the newest first.
whole_walk :
    (walk (database 0) 4 (pos 1) none spread_world).0
    ≡ ok (post_at 2 3000 ∷ post_at 3 2000 ∷ post_at 1 1000 ∷ [])
unfolding walk latest clamp_limit ◌>>=◌ Feeds.latest next_cursor is_before newer truncate_micro
    database
whole_walk = refl

-- Of two posts that were created at one time, a client that reads pages of one post sees one.
tied_world : World
tied_world = with_posts (post_at 1 1000 ∷ post_at 2 1000 ∷ [])

tied_walk : (walk (database 0) 9 (pos 1) none tied_world).0 ≡ ok (post_at 2 1000 ∷ [])
unfolding tied_world walk latest clamp_limit ◌>>=◌ Feeds.latest next_cursor is_before newer
    truncate_micro database
tied_walk = refl

-- A service that returns its cursor, and times that are printed as one code between two others.
abbrev echo_feeds : FeedService ℕ
echo_feeds = record {
  latest = λ limit cursor w. (ok ([], cursor), w);
  trending = λ limit w. (ok [], w);
}

abbrev print_time : Time → Text
print_time t = b'Z' ∷ t ∷ b'Z' ∷ []

abbrev read_time : Text → Result Time
read_time [] = err (sentinel invalid_input)
read_time (_ ∷ []) = err (sentinel invalid_input)
read_time (_ ∷ t ∷ _) = ok t

abbrev last_seen : Option FeedCursor
last_seen = some (record { created_at = 5000 })

same_time : (c : FeedCursor) → last_seen ≡ some c → 5000 ≡ c.created_at
same_time c e = cc

print_time-IsReadable :
    (c : FeedCursor) → last_seen ≡ some c → IsReadable print_time read_time c.created_at
unfolding is_empty trim_space
print_time-IsReadable c e =
    subst (IsReadable print_time read_time) (same_time c e)
      (record { trimmed = refl; some_text = refl; read = refl })

latest-next_value_example :
    LatestHandler.latest echo_feeds print_time read_time
      (bound (record { limit = pos 10; cursor = next_value print_time last_seen }))
      0
    ≡ respond 200
        (λ page. (page.0, next_value print_time page.1))
        (echo_feeds.latest (page_limit (pos 10)) last_seen)
        0
latest-next_value_example =
    latest-next_value print_time read_time echo_feeds (pos 10) last_seen 0 print_time-IsReadable
