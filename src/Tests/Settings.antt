-- ===== src/Tests/Settings.antt =====
-- The configuration, at concrete environments.
use echo_backend.Base.{◌≡◌, refl, none, some, List, [], ◌∷◌, if◌then◌else◌}
use echo_backend.Base.Int.{ℤ, pos, negsuc}
use echo_backend.Text.{Text, codes, is_empty, text_eq, trim_space}
use echo_backend.Errors.{Error, failure, Result, ok, err}
use echo_backend.Config.{Env, loaded, refused, load, split_and_trim}
use echo_backend.Config.Numbers.{atoi, parse_int64}
use echo_backend.Config.Faults.{config_faults}
use echo_backend.Config.Load.{config_of}
use echo_backend.Config.Accepted.{load-config_of, load-IsSafe, IsSafe}

abbrev lookup : List (Text × Text) → Env
lookup [] key = none
lookup ((k, v) ∷ l) key = let rest = lookup l key in if text_eq k key then some v else rest

abbrev entries : List (Text × Text)
entries =
    (codes "SERVER_HOST", codes "0.0.0.0")
    ∷ (codes "SERVER_PORT", codes "8080")
    ∷ (codes "SERVER_READ_TIMEOUT", codes "5s")
    ∷ (codes "SERVER_WRITE_TIMEOUT", codes "5s")
    ∷ (codes "SERVER_SHUTDOWN_TIMEOUT", codes "5s")
    ∷ (codes "SERVER_RATE_LIMIT_REQUESTS", codes "60")
    ∷ (codes "SERVER_RATE_LIMIT_WINDOW", codes "5s")
    ∷ (codes "DB_HOST", codes "db")
    ∷ (codes "DB_PORT", codes "5432")
    ∷ (codes "DB_USER", codes "echo")
    ∷ (codes "DB_PASSWORD", [])
    ∷ (codes "DB_NAME", codes "echo")
    ∷ (codes "DB_SSL_MODE", codes "disable")
    ∷ (codes "REDIS_ADDR", codes "redis:6379")
    ∷ (codes "REDIS_PASSWORD", [])
    ∷ (codes "REDIS_DB", codes "0")
    ∷ (codes "JWT_SECRET", codes "secret")
    ∷ (codes "JWT_TTL", codes "5s")
    ∷ (codes "APP_ENV", codes " Production ")
    ∷ (codes "CORS_ALLOWED_ORIGINS", codes "http://a, ,http://b")
    ∷ []

abbrev pub complete : Env
complete = lookup entries

-- A parser that knows one duration.
abbrev pub five_seconds : Text → Result ℤ
five_seconds t =
    if text_eq t (codes "5s") then ok (pos 5000000000) else err (failure (codes "invalid duration"))

numbers_read :
    (atoi (codes "-12") ≡ ok (negsuc 11))
    × (atoi (codes "+7") ≡ ok (pos 7))
    × (atoi (codes "9223372036854775808") ≡ err (failure (codes "value out of range")))
    × (atoi (codes "-9223372036854775808") ≡ ok (negsuc 9223372036854775807))
    × (atoi (codes "1_0") ≡ err (failure (codes "invalid syntax")))
    × (atoi (codes "20000000000000000000x") ≡ err (failure (codes "value out of range")))
    × (atoi (codes "10000000000000000000x") ≡ err (failure (codes "invalid syntax")))
unfolding parse_int64
numbers_read = (refl, refl, refl, refl, refl, refl, refl)

origins_split : split_and_trim (codes "a, ,b,") ≡ codes "a" ∷ codes "b" ∷ []
unfolding split_and_trim is_empty trim_space
origins_split = refl

nothing_set : load five_seconds (λ _. none) ≡ refused (config_faults five_seconds (λ _. none))
unfolding config_faults
nothing_set = (load-config_of five_seconds (λ _. none)).1 _ _ refl

load-config_of_example :
    (config_faults five_seconds complete ≡ []
      → load five_seconds complete ≡ loaded (config_of complete five_seconds))
    × ((e : Error) (errs : List Error)
        → config_faults five_seconds complete ≡ e ∷ errs
        → load five_seconds complete ≡ refused (e ∷ errs))
load-config_of_example = load-config_of five_seconds complete

accepted : load five_seconds complete ≡ loaded (config_of complete five_seconds)
unfolding config_faults text_eq parse_int64
accepted = load-config_of_example.0 refl

load-IsSafe_example : IsSafe complete (config_of complete five_seconds)
load-IsSafe_example = load-IsSafe five_seconds complete (config_of complete five_seconds) accepted
