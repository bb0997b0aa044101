-- ===== src/Config.antt =====
-- internal/config/config.go. The environment is a function, as it stands after `godotenv.Load`;
-- `time.ParseDuration` is a parameter. The errors are collected in the order of the calls.
pub mod Numbers
pub mod Faults
pub mod Readings
pub mod Load
pub mod Accepted
use echo_backend.Base.{
  ℕ, Bool, true, false, not, ◌&&◌, Option, none, some, List, [], ◌∷◌, ◌++◌, ◌==◌, if◌then◌else◌,
}
use echo_backend.Base.Int.{ℤ, pos}
use echo_backend.Text.{Text, codes, is_empty, trim_space, equal_fold, text_eq}
use echo_backend.Errors.{Error, failure, wrapped, Result, ok, err}
use echo_backend.Effect.{M, pure, ◌>>=◌, total}
use echo_backend.Config.Numbers.{atoi, parse_int64}

pub record Server : Type 0 where
  pub read_timeout : ℤ
  pub write_timeout : ℤ
  pub host : Text
  pub port : Text
  pub shutdown_timeout : ℤ
  pub rate_limit_requests : ℤ
  pub rate_limit_window : ℤ

pub record Db : Type 0 where
  pub host : Text
  pub port : Text
  pub user : Text
  pub password : Text
  pub name : Text
  pub ssl_mode : Text

pub record RedisConfig : Type 0 where
  pub addr : Text
  pub password : Text
  pub db : ℤ

pub record Jwt : Type 0 where
  pub secret : Text
  pub ttl : ℤ

pub record Cors : Type 0 where
  pub allowed_origins : List Text

pub record Moderation : Type 0 where
  pub auto_hide_threshold : ℤ

pub record Config : Type 0 where
  pub env : Text
  pub onion_address : Text
  pub server : Server
  pub db : Db
  pub redis : RedisConfig
  pub jwt : Jwt
  pub cors : Cors
  pub moderation : Moderation

abbrev pub Env : Type 0
Env = Text → Option Text

-- `os.Getenv(key)`
abbrev pub or_empty : Option Text → Text
or_empty none = []
or_empty (some value) = value

-- A reader of the environment, which collects errors: it never fails as a call.
abbrev pub Reading : Type 0 → Type 0
Reading A = M (List Error) A

-- `*errs = append(*errs, e)`
abbrev pub report : {A : Type 0} → A → Error → Reading A
report value e errs = (ok value, errs ++ e ∷ [])

unfoldable pub require_value : Text → Bool → Option Text → Reading Text
require_value key allow_empty none =
    report [] (failure (codes "env variable " ++ key ++ codes " does not exist"))
require_value key allow_empty (some value) =
    if is_empty value && not allow_empty
    then report [] (failure (codes "env variable " ++ key ++ codes " is empty"))
    else pure value

unfoldable pub value_or : Text → Option Text → Text
value_or default none = default
value_or default (some value) = if is_empty value then default else value

-- What a parser made of the value.
unfoldable pub parsed_or_report : Text → Text → Result ℤ → Reading ℤ
parsed_or_report kind value (ok n) = pure n
parsed_or_report kind value (err e) =
    report (pos 0) (wrapped (codes "cannot parse " ++ value ++ codes " to " ++ kind) e)

-- `strings.Split(value, ",")`
abbrev pub on_head : ℕ → List Text → List Text
on_head c [] = (c ∷ []) ∷ []
on_head c (part ∷ parts) = (c ∷ part) ∷ parts

unfoldable pub split_comma : Text → List Text
split_comma [] = [] ∷ []
split_comma (c ∷ s) = let rest = split_comma s in if c == b',' then [] ∷ rest else on_head c rest

unfoldable pub trim_each : List Text → List Text
trim_each [] = []
trim_each (part ∷ parts) =
    let rest = trim_each parts in
    if is_empty (trim_space part) then rest else trim_space part ∷ rest

unfoldable pub split_and_trim : Text → List Text
unfolding split_comma trim_each
split_and_trim value = trim_each (split_comma value)

module _ (env : Env) where
  unfoldable pub require_env : Text → Bool → Reading Text
  unfolding require_value
  require_env key allow_empty = require_value key allow_empty (env key)

  unfoldable pub env_or_default : Text → Text → Text
  unfolding value_or
  env_or_default key default = value_or default (env key)

  -- `RequireInt`, `RequireInt64` and `RequireDuration` differ in the parser and its name.
  unfoldable pub require_parsed : Text → (Text → Result ℤ) → Text → Bool → Reading ℤ
  unfolding require_env parsed_or_report
  require_parsed kind parse key allow_empty = do
    value ← require_env key allow_empty
    if is_empty value then pure (pos 0) else parsed_or_report kind value (parse value)

  unfoldable pub require_int : Text → Bool → Reading ℤ
  require_int = require_parsed (codes "int") atoi

  unfoldable pub require_int64 : Text → Bool → Reading ℤ
  require_int64 = require_parsed (codes "int64") parse_int64

  module _ (parse_duration : Text → Result ℤ) where
    unfoldable pub require_duration : Text → Bool → Reading ℤ
    require_duration = require_parsed (codes "time.Duration") parse_duration

    unfoldable pub load_server : Reading Server
    load_server = do
      host ← require_env (codes "SERVER_HOST") false
      port ← require_env (codes "SERVER_PORT") false
      read_timeout ← require_duration (codes "SERVER_READ_TIMEOUT") false
      write_timeout ← require_duration (codes "SERVER_WRITE_TIMEOUT") false
      shutdown_timeout ← require_duration (codes "SERVER_SHUTDOWN_TIMEOUT") false
      rate_limit_requests ← require_int64 (codes "SERVER_RATE_LIMIT_REQUESTS") false
      rate_limit_window ← require_duration (codes "SERVER_RATE_LIMIT_WINDOW") false
      pure (record {
        read_timeout = read_timeout;
        write_timeout = write_timeout;
        host = host;
        port = port;
        shutdown_timeout = shutdown_timeout;
        rate_limit_requests = rate_limit_requests;
        rate_limit_window = rate_limit_window;
      })

    unfoldable pub load_jwt : Reading Jwt
    load_jwt = do
      secret ← require_env (codes "JWT_SECRET") false
      ttl ← require_duration (codes "JWT_TTL") false
      pure (record { secret = secret; ttl = ttl })

  unfoldable pub load_db : Reading Db
  load_db = do
    host ← require_env (codes "DB_HOST") false
    port ← require_env (codes "DB_PORT") false
    user ← require_env (codes "DB_USER") false
    password ← require_env (codes "DB_PASSWORD") true
    name ← require_env (codes "DB_NAME") false
    ssl_mode ← require_env (codes "DB_SSL_MODE") true
    pure (record {
      host = host;
      port = port;
      user = user;
      password = password;
      name = name;
      ssl_mode = ssl_mode;
    })

  unfoldable pub load_redis : Reading RedisConfig
  load_redis = do
    addr ← require_env (codes "REDIS_ADDR") false
    password ← require_env (codes "REDIS_PASSWORD") true
    db ← require_int (codes "REDIS_DB") false
    pure (record { addr = addr; password = password; db = db })

  unfoldable pub load_threshold : Reading ℤ
  load_threshold =
      let raw = env_or_default (codes "MODERATION_AUTO_HIDE_THRESHOLD") (codes "3") in
      parsed_or_report (codes "int") raw (atoi raw)

  -- `cfg.Env`: any text but `production`, in any case, is development.
  unfoldable pub load_env : Text
  load_env =
      if equal_fold (trim_space (or_empty (env (codes "APP_ENV")))) (codes "production")
      then codes "production"
      else codes "development"

  module _ (parse_duration : Text → Result ℤ) where
    unfoldable pub load_config : Reading Config
    unfolding load_server load_db load_redis load_jwt load_threshold
    load_config = do
      server ← load_server parse_duration
      db ← load_db
      redis ← load_redis
      jwt ← load_jwt parse_duration
      threshold ← load_threshold
      pure (record {
        env = load_env;
        onion_address = trim_space (or_empty (env (codes "ONION_ADDRESS")));
        server = server;
        db = db;
        redis = redis;
        jwt = jwt;
        cors = record {
          allowed_origins =
              split_and_trim (env_or_default (codes "CORS_ALLOWED_ORIGINS") (codes "*"));
        };
        moderation = record { auto_hide_threshold = threshold };
      })

-- `errors.Join` keeps every error.
pub data Loaded : Type 0 where
  loaded : Config → Loaded
  refused : List Error → Loaded

unfoldable pub unless_errors : Result Config × List Error → Loaded
unless_errors (ok config, []) = loaded config
unless_errors (_, e ∷ errs) = refused (e ∷ errs)
unless_errors (err e, []) = refused (e ∷ [])

unfoldable pub load : (Text → Result ℤ) → Env → Loaded
unfolding load_config unless_errors
load parse_duration env = unless_errors (load_config env parse_duration [])

unfoldable pub is_production : Config → Bool
is_production c = text_eq c.env (codes "production")

unfoldable pub address : Server → Text
address s = s.host ++ codes ":" ++ s.port

unfoldable pub dsn : Db → Text
dsn d =
    codes "host="
    ++ d.host
    ++ codes " port="
    ++ d.port
    ++ codes " user="
    ++ d.user
    ++ codes " password="
    ++ d.password
    ++ codes " dbname="
    ++ d.name
    ++ codes " sslmode="
    ++ d.ssl_mode
