-- ===== src/Config/Faults.antt =====
-- The variables that `config.Load` reads, as a table, and what can be wrong with each.
use echo_backend.Base.{Option, none, some, List, [], ◌∷◌, ◌++◌}
use echo_backend.Base.Int.{ℤ}
use echo_backend.Text.{Text, codes}
use echo_backend.Errors.{Error, failure, wrapped, Result, ok, err}
use echo_backend.Config.Numbers.{atoi, parse_int64}
use echo_backend.Config.{Env, env_or_default}

-- What a variable has to be.
pub data Shape : Type 0 where
  any_text some_text : Shape
  -- The type's name, and its parser.
  number : Text → (Text → Result ℤ) → Shape

abbrev pub parse_fault : Text → Text → Result ℤ → List Error
parse_fault kind value (ok n) = []
parse_fault kind value (err e) =
    wrapped (codes "cannot parse " ++ value ++ codes " to " ++ kind) e ∷ []

abbrev pub empty_fault : Text → Shape → List Error
empty_fault key any_text = []
empty_fault key some_text = failure (codes "env variable " ++ key ++ codes " is empty") ∷ []
empty_fault key (number _ _) = failure (codes "env variable " ++ key ++ codes " is empty") ∷ []

abbrev pub text_fault : Shape → Text → List Error
text_fault any_text value = []
text_fault some_text value = []
text_fault (number kind parse) value = parse_fault kind value (parse value)

-- The faults of a variable: at most one.
unfoldable pub fault : Text → Shape → Option Text → List Error
fault key shape none = failure (codes "env variable " ++ key ++ codes " does not exist") ∷ []
fault key shape (some []) = empty_fault key shape
fault key shape (some (c ∷ value)) = text_fault shape (c ∷ value)

unfoldable pub all_faults : Env → List (Text × Shape) → List Error
unfolding fault
all_faults env [] = []
all_faults env ((key, shape) ∷ settings) = fault key shape (env key) ++ all_faults env settings

module _ (parse_duration : Text → Result ℤ) where
  abbrev pub duration : Shape
  duration = number (codes "time.Duration") parse_duration

  abbrev pub server_settings : List (Text × Shape)
  server_settings =
      (codes "SERVER_HOST", some_text)
      ∷ (codes "SERVER_PORT", some_text)
      ∷ (codes "SERVER_READ_TIMEOUT", duration)
      ∷ (codes "SERVER_WRITE_TIMEOUT", duration)
      ∷ (codes "SERVER_SHUTDOWN_TIMEOUT", duration)
      ∷ (codes "SERVER_RATE_LIMIT_REQUESTS", number (codes "int64") parse_int64)
      ∷ (codes "SERVER_RATE_LIMIT_WINDOW", duration)
      ∷ []

  abbrev pub jwt_settings : List (Text × Shape)
  jwt_settings = (codes "JWT_SECRET", some_text) ∷ (codes "JWT_TTL", duration) ∷ []

abbrev pub db_settings : List (Text × Shape)
db_settings =
    (codes "DB_HOST", some_text)
    ∷ (codes "DB_PORT", some_text)
    ∷ (codes "DB_USER", some_text)
    ∷ (codes "DB_PASSWORD", any_text)
    ∷ (codes "DB_NAME", some_text)
    ∷ (codes "DB_SSL_MODE", any_text)
    ∷ []

abbrev pub redis_settings : List (Text × Shape)
redis_settings =
    (codes "REDIS_ADDR", some_text)
    ∷ (codes "REDIS_PASSWORD", any_text)
    ∷ (codes "REDIS_DB", number (codes "int") atoi)
    ∷ []

-- The one setting with a default: no value is as good as 3.
abbrev pub threshold_fault : Text → List Error
threshold_fault value = parse_fault (codes "int") value (atoi value)

unfoldable pub config_faults : (Text → Result ℤ) → Env → List Error
unfolding all_faults env_or_default
config_faults parse_duration env =
    all_faults env (server_settings parse_duration)
    ++ (all_faults env db_settings
        ++ (all_faults env redis_settings
            ++ (all_faults env (jwt_settings parse_duration)
                ++ threshold_fault
                    (env_or_default env (codes "MODERATION_AUTO_HIDE_THRESHOLD") (codes "3")))))
