-- ===== src/Middleware/RateLimit.antt =====
-- internal/middleware/ratelimit.go: a sliding window over a sorted set of Redis for each subject.
pub mod Window
pub mod Served
pub mod Reads
use echo_backend.Base.{
  ℕ, ◌-◌, ◌*◌, ◌/◌, ◌&&◌, Bool, not, Option, none, some, List, [], ◌∷◌, ◌++◌, ltb, if◌then◌else◌,
}
use echo_backend.Base.Int.{ℤ, pos, negsuc, pos_part, sub_ℕ, leb_ℤ, ltb_ℤ, ◌+ℤ◌}
use echo_backend.Text.{Text, codes, is_empty, trim_space, equal_fold, split_space, itoa}
use echo_backend.Errors.{Result, ok, err}
use echo_backend.Effect.{M, pure, ◌>>=◌, total}
use echo_backend.Crypto.{Crypto}
use echo_backend.Domain.{Time}
use echo_backend.System.{System}
use echo_backend.SortedSets.{SortedSets, z_rem_range_by_score, z_add, z_card, expire}
use echo_backend.Service.Auth.{token_digest}
use echo_backend.Middleware.Gin.{Context, Verdict, next, abort}
use echo_backend.Middleware.Headers.{Headers, put}

pub record RateLimit : Type 0 where
  pub general_limit : ℤ
  pub general_window : ℤ
  pub post_create_limit : ℤ
  pub post_create_window : ℤ

-- A limit or a window that is not positive is replaced by the default.
abbrev pub or_default : ℤ → ℤ → ℤ
or_default value default = if leb_ℤ value (pos 0) then default else value

-- `time.Minute`, in nanoseconds
abbrev pub minute : ℤ
minute = pos 60_000_000_000

unfoldable pub new_rate_limit : ℤ → ℤ → ℤ → ℤ → RateLimit
new_rate_limit general_limit general_window post_create_limit post_create_window = record {
  general_limit = or_default general_limit (pos 60);
  general_window = or_default general_window minute;
  post_create_limit = or_default post_create_limit (pos 10);
  post_create_window = or_default post_create_window minute;
}

-- The Unix epoch, in nanoseconds since the year 1. The clock is past it.
abbrev pub unix_epoch : ℕ
unix_epoch = 62_135_596_800_000_000_000

-- `t.UnixMilli()` and `t.UnixNano()`
unfoldable pub unix_milli : Time → ℕ
unix_milli t = (t - unix_epoch) / 1_000_000

unfoldable pub unix_nano : Time → ℕ
unix_nano t = t - unix_epoch

-- `d.Milliseconds()` and `int64(d.Seconds())` of a window, which is positive.
unfoldable pub milliseconds : ℤ → ℕ
milliseconds d = pos_part d / 1_000_000

unfoldable pub seconds : ℤ → ℕ
seconds d = pos_part d / 1_000_000_000

module _ {W : Type 0} (crypto : Crypto W) where
  unfoldable pub subject_part : Option (Text × Text) → Text
  unfolding token_digest
  subject_part none = codes "subject:anon"
  subject_part (some parts) =
      if equal_fold parts.0 (codes "Bearer") && not (is_empty (trim_space parts.1))
      then codes "token:" ++ token_digest crypto parts.1
      else codes "subject:anon"

  unfoldable pub subject_key : Text → Text
  unfolding subject_part
  subject_key authorization = subject_part (split_space authorization)

  unfoldable pub limit_key : Text → Text → Text
  unfolding subject_key
  limit_key scope authorization =
      codes "rate-limit:" ++ scope ++ codes ":" ++ subject_key authorization

-- The reply to the third of the queued commands.
abbrev pub third : List ℕ → ℕ
third (_ ∷ _ ∷ n ∷ _) = n
third (_ ∷ _ ∷ []) = 0
third (_ ∷ []) = 0
third [] = 0

module _ {W : Type 0} (sys : System W) (store : SortedSets W) where
  -- How many requests the window has, this one included.
  unfoldable pub count_request : Text → ℤ → M W ℕ
  unfolding unix_milli unix_nano milliseconds
  count_request key window = do
    now ← total sys.now
    let now_millis = unix_milli now
    let window_start = sub_ℕ now_millis (milliseconds window)
    stamp ← total sys.now
    let member = itoa (pos (unix_nano stamp))
    counts ← store.exec (
        z_rem_range_by_score key window_start
        ∷ z_add key now_millis member
        ∷ z_card key
        ∷ expire key (window +ℤ pos 5_000_000_000)
        ∷ [])
    pure (third counts)

  -- The answer, and the headers of the response.
  unfoldable pub settle_limit : ℤ → ℤ → Headers → Context → Result ℕ × W → (Verdict × Headers) × W
  unfolding seconds
  settle_limit limit window h c (err _, w) =
      ((abort 500 (codes "internal error") (codes "ERR_INTERNAL"), h), w)
  settle_limit limit window h c (ok n, w) = (
    if ltb_ℤ limit (pos n)
        then (
          abort 429 (codes "rate limit exceeded") (codes "ERR_RATE_LIMIT"),
          put (codes "Retry-After") (itoa (pos (seconds window))) h,
        )
        else (next c, h),
    w,
  )

  module _ (crypto : Crypto W) where
    unfoldable pub limit_handler :
        Text → ℤ → ℤ → Text → Headers → Context → W → (Verdict × Headers) × W
    unfolding limit_key count_request settle_limit
    limit_handler scope limit window authorization h c w =
        settle_limit limit window h c
          (count_request (limit_key crypto scope authorization) window w)

    unfoldable pub general : RateLimit → Text → Headers → Context → W → (Verdict × Headers) × W
    unfolding limit_handler
    general r = limit_handler (codes "general") r.general_limit r.general_window

    unfoldable pub post_create : RateLimit → Text → Headers → Context → W → (Verdict × Headers) × W
    unfolding limit_handler
    post_create r = limit_handler (codes "posts") r.post_create_limit r.post_create_window
