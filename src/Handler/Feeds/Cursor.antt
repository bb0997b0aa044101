-- ===== src/Handler/Feeds/Cursor.antt =====
-- The cursor that a page of the latest feed returns, given back to the handler.
use echo_backend.Base.{◌≡◌, refl, ap, false, Option, none, some}
use echo_backend.Base.Int.{ℤ}
use echo_backend.Text.{Text, is_empty, trim_space}
use echo_backend.Errors.{Result, ok}
use echo_backend.Effect.{◌>>=◌, map_error, from_result}
use echo_backend.Domain.{Time, FeedCursor}
use echo_backend.Service.Feeds.{parse_cursor}
use echo_backend.Handler.Errors.{bound, respond, with_request}
use echo_backend.Handler.Services.{FeedService}
use echo_backend.Handler.Request.{page_limit, as_invalid}
use echo_backend.Handler.Feeds.{latest, next_value}

-- `Format` prints the time as a text that `time.Parse` reads.
pub record IsReadable (format : Time → Text) (parse_time : Text → Result Time) (t : Time)
    : Type 0 where
  pub trimmed : trim_space (format t) ≡ format t
  pub some_text : is_empty (format t) ≡ false
  pub read : parse_time (format t) ≡ ok t

module _ (format : Time → Text) (parse_time : Text → Result Time) where
  parse_cursor-next_value :
      (o : Option FeedCursor)
      → ((c : FeedCursor) → o ≡ some c → IsReadable format parse_time c.created_at)
      → parse_cursor parse_time (next_value format o) ≡ ok o
  unfolding parse_cursor next_value is_empty trim_space
  parse_cursor-next_value none h = refl
  parse_cursor-next_value (some c) h = let r = h c refl in rw (r.trimmed, r.some_text, r.read) refl

  -- A request with the `next_cursor` of an earlier answer asks the service for the page after it,
  -- by the very cursor that the service returned, if `time.Parse` reads what `Format` prints. An
  -- empty `next_cursor`, where there was no post, asks for the first page.
  pub latest-next_value :
      {W : Type 0} (feeds : FeedService W) (limit : ℤ) (o : Option FeedCursor) (w : W)
      → ((c : FeedCursor) → o ≡ some c → IsReadable format parse_time c.created_at)
      → latest feeds format parse_time
          (bound (record { limit = limit; cursor = next_value format o }))
          w
        ≡ respond 200
            (λ page. (page.0, next_value format page.1))
            (feeds.latest (page_limit limit) o)
            w
  unfolding latest with_request ◌>>=◌ map_error
  latest-next_value feeds limit o w h =
      ap
        (λ r.
          respond 200 (λ page. (page.0, next_value format page.1))
            (map_error as_invalid (from_result r) >>= λ cursor.
              feeds.latest (page_limit limit) cursor)
            w)
        (parse_cursor-next_value o h)
