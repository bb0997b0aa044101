-- ===== src/Tests/Limits.antt =====
-- The theorem on rate limits at two requests, of which the limit lets one pass.
use echo_backend.Base.{◌+◌, ◌≡◌, refl, List, [], ◌∷◌, arith}
use echo_backend.Base.Int.{pos}
use echo_backend.Text.{Text, codes, itoa, text_eq, split_space}
use echo_backend.Errors.{ok, err, sentinel, unauthorized}
use echo_backend.Effect.{◌>>=◌}
use echo_backend.Effect.Rules.{returned}
use echo_backend.Domain.{Time}
use echo_backend.System.{System}
use echo_backend.SortedSets.{SortedSets, Sets, IsSortedSets, replies, after_all}
use echo_backend.Middleware.Gin.{Verdict, next, abort}
use echo_backend.Middleware.RateLimit.{
  unix_epoch, unix_milli, unix_nano, milliseconds, limit_handler, limit_key, subject_key,
  subject_part, count_request, settle_limit,
}
use echo_backend.Middleware.RateLimit.Served.{
  IsClock, start, request, logged, IsLimited, Served-IsLimited,
}
use echo_backend.Crypto.{Crypto}

pub record Desk : Type 0 where
  pub clock : Time
  pub sets : Sets

abbrev clock_of : Desk → Time
clock_of w = w.clock

abbrev sets_of : Desk → Sets
sets_of w = w.sets

-- The clock moves on by a second with each read.
pub desk_system : System Desk
desk_system = record {
  now = λ w. (w.clock, record w { clock = w.clock + 1_000_000_000 });
  new_uuid = λ w. (1, w);
}

pub desk_store : SortedSets Desk
desk_store = record {
  exec = λ cs w. (ok (replies cs w.sets), record w { sets = after_all cs w.sets });
}

desk_system-IsClock : IsClock desk_system sets_of clock_of
unfolding desk_system
desk_system-IsClock = record {
  now_later = λ w. omega arith;
  now_sooner = λ w. omega arith;
  now_sets = λ w. refl;
}

desk_store-IsSortedSets : IsSortedSets desk_store sets_of clock_of
unfolding desk_store
desk_store-IsSortedSets = record {
  exec_lem = λ cs w. returned _ _ _ _ (refl, refl);
  exec_clock = λ cs w. omega arith;
}

-- Only the sum of a token is called.
pub desk_crypto : Crypto Desk
desk_crypto = record {
  uuid_string = λ u. u ∷ [];
  uuid_parse = λ s. err (sentinel unauthorized);
  numeric_date = λ t. t;
  jwt_sign = λ secret c. err (sentinel unauthorized);
  jwt_parse = λ token key w. (err (sentinel unauthorized), w);
  bcrypt_generate = λ text w. (ok text, w);
  bcrypt_compare = λ hash text. ok tt;
  sha256 = λ text. text;
}

abbrev pub desk : Desk
desk = record { clock = unix_epoch; sets = λ _. [] }

-- One request a minute passes.
serve : Desk → (Verdict × List (Text × Text)) × Desk
unfolding limit_handler desk_system desk_store desk_crypto
serve w =
    limit_handler desk_system desk_store desk_crypto (codes "general") (pos 1) (pos 60_000_000_000)
      [] [] [] w

first_verdict : (serve desk).0.0 ≡ next []
unfolding serve limit_handler count_request settle_limit ◌>>=◌ limit_key subject_key subject_part
    split_space text_eq unix_milli unix_nano milliseconds desk_system desk_store desk_crypto
first_verdict = refl

second_verdict :
    (serve (serve desk).1).0.0 ≡ abort 429 (codes "rate limit exceeded") (codes "ERR_RATE_LIMIT")
unfolding serve limit_handler count_request settle_limit ◌>>=◌ limit_key subject_key subject_part
    split_space text_eq unix_milli unix_nano milliseconds itoa desk_system desk_store desk_crypto
second_verdict = refl

Served-IsLimited_example : IsLimited (milliseconds (pos 60_000_000_000)) (pos 1) (
    logged
      (serve (serve desk).1).0.0
      (unix_milli (desk_system.now (serve desk).1).0)
      (logged (serve desk).0.0 (unix_milli (desk_system.now desk).0) []))
unfolding serve limit_handler count_request settle_limit ◌>>=◌ limit_key subject_key subject_part
    split_space text_eq unix_milli unix_nano milliseconds itoa desk_system desk_store desk_crypto
Served-IsLimited_example =
    Served-IsLimited desk_system desk_store desk_crypto sets_of clock_of (codes "general") []
      (pos 1) (pos 60_000_000_000) desk_system-IsClock desk_store-IsSortedSets
      (serve (serve desk).1).1 _
      (request (serve desk).1 _ [] [] (request desk [] [] [] (start desk) tt) (refl, tt))
