-- ===== src/Diagnose.antt =====
-- cmd/diagregister/main.go: a client that registers once and prints how far it came.
use echo_backend.Base.{ℕ, List}
use echo_backend.Base.Int.{ℤ}
use echo_backend.Text.{Text, len}
use echo_backend.Errors.{Error, Result, ok, err}
use echo_backend.Effect.{M}
use echo_backend.Crypto.{Crypto}
use echo_backend.Database.{Database}
use echo_backend.Redis.{Redis}
use echo_backend.System.{System}
use echo_backend.Config.{Config, Loaded, loaded, refused, Env, load, dsn}
use echo_backend.Service.Auth.{AuthService, register}

-- What is printed. The last line has the length of the token, and the pseudonym.
pub data Line : Type 0 where
  config_error : List Error → Line
  db_error redis_ping_error register_error : Error → Line
  register_ok : ℕ → Text → Line

module _ {W : Type 0} (db : Database W) (redis : Redis W) (sys : System W) (crypto : Crypto W)
    (generate : W → Text × W) (open_database : Text → M W (Unit {0}))
    (ping_redis : Text → Text → ℤ → M W (Unit {0})) where
  -- `service.NewAuth`
  unfoldable pub auth_service : Config → AuthService W
  auth_service cfg = record {
    db = db;
    sys = sys;
    redis = redis;
    crypto = crypto;
    generate = generate;
    secret = cfg.jwt.secret;
    ttl = cfg.jwt.ttl;
  }

  unfoldable pub after_register : Result (Text × Text) × W → Line × W
  after_register (err e, w) = (register_error e, w)
  after_register (ok (token, pseudonym), w) = (register_ok (len token) pseudonym, w)

  unfoldable pub after_ping : Config → Result (Unit {0}) × W → Line × W
  unfolding auth_service after_register
  after_ping cfg (err e, w) = (redis_ping_error e, w)
  after_ping cfg (ok _, w) = after_register (register (auth_service cfg) w)

  unfoldable pub after_open : Config → Result (Unit {0}) × W → Line × W
  unfolding after_ping
  after_open cfg (err e, w) = (db_error e, w)
  after_open cfg (ok _, w) =
      after_ping cfg (ping_redis cfg.redis.addr cfg.redis.password cfg.redis.db w)

  unfoldable pub after_load : Loaded → W → Line × W
  unfolding after_open
  after_load (refused errors) w = (config_error errors, w)
  after_load (loaded cfg) w = after_open cfg (open_database (dsn cfg.db) w)

  unfoldable pub main : (Text → Result ℤ) → Env → W → Line × W
  unfolding after_load
  main parse_duration env = after_load (load parse_duration env)
