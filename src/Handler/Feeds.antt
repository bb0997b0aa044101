-- ===== src/Handler/Feeds.antt =====
-- internal/handler/feed.go
pub mod Cursor
use echo_backend.Base.{Option, none, some, List, []}
use echo_backend.Base.Int.{ℤ}
use echo_backend.Text.{Text}
use echo_backend.Errors.{Result}
use echo_backend.Effect.{◌>>=◌, map_error, from_result}
use echo_backend.Domain.{Time, Post, FeedCursor}
use echo_backend.Service.Feeds.{parse_cursor}
use echo_backend.Handler.Errors.{Response, Binding, respond, with_request}
use echo_backend.Handler.Services.{FeedService}
use echo_backend.Handler.Request.{as_invalid, page_limit}

pub record LatestFeedRequest : Type 0 where
  pub limit : ℤ
  pub cursor : Text

pub record TrendingFeedRequest : Type 0 where
  pub limit : ℤ

-- `next.CreatedAt.Format(...)` and `time.Parse` are parameters.
unfoldable pub next_value : (Time → Text) → Option FeedCursor → Text
next_value format none = []
next_value format (some cursor) = format cursor.created_at

module _ {W : Type 0} (feeds : FeedService W) where
  unfoldable pub latest :
      (Time → Text)
      → (Text → Result Time)
      → Binding LatestFeedRequest
      → W
      → Response (List Post × Text) × W
  unfolding next_value
  latest format parse_time binding = with_request binding λ req.
      respond 200 (λ page. (page.0, next_value format page.1))
        (do
          cursor ← map_error as_invalid (from_result (parse_cursor parse_time req.cursor))
          feeds.latest (page_limit req.limit) cursor)

  unfoldable pub trending : Binding TrendingFeedRequest → W → Response (List Post) × W
  trending binding =
      with_request binding
        λ req. respond 200 (λ posts. posts) (feeds.trending (page_limit req.limit))
