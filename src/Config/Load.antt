-- ===== src/Config/Load.antt =====
-- What `config.Load` reads in each of its sections.
use echo_backend.Base.Int.{ℤ}
use echo_backend.Text.{Text, codes, trim_space}
use echo_backend.Errors.{Result}
use echo_backend.Config.Numbers.{atoi, parse_int64}
use echo_backend.Config.{
  Config, Server, Jwt, Db, RedisConfig, Env, or_empty, env_or_default, require_parsed, require_int,
  require_int64, require_duration, load_server, load_jwt, load_db, load_redis, load_threshold,
  load_env, load_config, split_and_trim,
}
use echo_backend.Config.Faults.{
  all_faults, server_settings, jwt_settings, db_settings, redis_settings, config_faults,
}
use echo_backend.Config.Readings.{
  Collects, Collects-pure, Collects-bind, Collects-bind-pure, Collects-some_text, Collects-any_text,
  Collects-number, Collects-parsed_or_report, number_of, or_zero,
}

-- What each section reads.
module _ (env : Env) where
  abbrev found : Text → Text
  found key = or_empty (env key)

  module _ (parse_duration : Text → Result ℤ) where
    abbrev server_of : Server
    server_of = record {
      read_timeout = number_of parse_duration (found (codes "SERVER_READ_TIMEOUT"));
      write_timeout = number_of parse_duration (found (codes "SERVER_WRITE_TIMEOUT"));
      host = found (codes "SERVER_HOST");
      port = found (codes "SERVER_PORT");
      shutdown_timeout = number_of parse_duration (found (codes "SERVER_SHUTDOWN_TIMEOUT"));
      rate_limit_requests = number_of parse_int64 (found (codes "SERVER_RATE_LIMIT_REQUESTS"));
      rate_limit_window = number_of parse_duration (found (codes "SERVER_RATE_LIMIT_WINDOW"));
    }

    load_server-Collects :
        Collects
          (load_server env parse_duration)
          server_of
          (all_faults env (server_settings parse_duration))
    unfolding load_server all_faults require_duration require_parsed require_int64
    load_server-Collects = Collects-bind _ _ _ _ _ _ (Collects-some_text env _) (
        Collects-bind _ _ _ _ _ _ (Collects-some_text env _) (
          Collects-bind _ _ _ _ _ _ (Collects-number env _ _ _) (
            Collects-bind _ _ _ _ _ _ (Collects-number env _ _ _) (
              Collects-bind _ _ _ _ _ _ (Collects-number env _ _ _) (
                Collects-bind _ _ _ _ _ _ (Collects-number env _ _ _)
                  (Collects-bind _ _ _ _ _ _ (Collects-number env _ _ _) (Collects-pure _)))))))

    abbrev jwt_of : Jwt
    jwt_of = record {
      secret = found (codes "JWT_SECRET");
      ttl = number_of parse_duration (found (codes "JWT_TTL"));
    }

    load_jwt-Collects :
        Collects (load_jwt env parse_duration) jwt_of (all_faults env (jwt_settings parse_duration))
    unfolding load_jwt all_faults require_duration require_parsed
    load_jwt-Collects =
        Collects-bind _ _ _ _ _ _ (Collects-some_text env _)
          (Collects-bind _ _ _ _ _ _ (Collects-number env _ _ _) (Collects-pure _))

  abbrev db_of : Db
  db_of = record {
    host = found (codes "DB_HOST");
    port = found (codes "DB_PORT");
    user = found (codes "DB_USER");
    password = found (codes "DB_PASSWORD");
    name = found (codes "DB_NAME");
    ssl_mode = found (codes "DB_SSL_MODE");
  }

  load_db-Collects : Collects (load_db env) db_of (all_faults env db_settings)
  unfolding load_db all_faults
  load_db-Collects = Collects-bind _ _ _ _ _ _ (Collects-some_text env _) (
      Collects-bind _ _ _ _ _ _ (Collects-some_text env _) (
        Collects-bind _ _ _ _ _ _ (Collects-some_text env _) (
          Collects-bind _ _ _ _ _ _ (Collects-any_text env _) (
            Collects-bind _ _ _ _ _ _ (Collects-some_text env _)
              (Collects-bind _ _ _ _ _ _ (Collects-any_text env _) (Collects-pure _))))))

  abbrev redis_of : RedisConfig
  redis_of = record {
    addr = found (codes "REDIS_ADDR");
    password = found (codes "REDIS_PASSWORD");
    db = number_of atoi (found (codes "REDIS_DB"));
  }

  load_redis-Collects : Collects (load_redis env) redis_of (all_faults env redis_settings)
  unfolding load_redis all_faults require_int require_parsed
  load_redis-Collects = Collects-bind _ _ _ _ _ _ (Collects-some_text env _) (
      Collects-bind _ _ _ _ _ _ (Collects-any_text env _)
        (Collects-bind _ _ _ _ _ _ (Collects-number env _ _ _) (Collects-pure _)))

  abbrev threshold_text : Text
  threshold_text = env_or_default env (codes "MODERATION_AUTO_HIDE_THRESHOLD") (codes "3")

  module _ (parse_duration : Text → Result ℤ) where
    unfoldable pub config_of : Config
    config_of = record {
      env = load_env env;
      onion_address = trim_space (found (codes "ONION_ADDRESS"));
      server = server_of parse_duration;
      db = db_of;
      redis = redis_of;
      jwt = jwt_of parse_duration;
      cors = record {
        allowed_origins =
            split_and_trim (env_or_default env (codes "CORS_ALLOWED_ORIGINS") (codes "*"));
      };
      moderation = record { auto_hide_threshold = or_zero (atoi threshold_text) };
    }

    pub load_config-Collects :
        Collects (load_config env parse_duration) config_of (config_faults parse_duration env)
    unfolding load_config load_threshold config_faults config_of
    load_config-Collects = Collects-bind _ _ _ _ _ _ (load_server-Collects parse_duration) (
        Collects-bind _ _ _ _ _ _ load_db-Collects (
          Collects-bind _ _ _ _ _ _ load_redis-Collects (
            Collects-bind _ _ _ _ _ _ (load_jwt-Collects parse_duration) (
              Collects-bind-pure _ _ _ _
                (Collects-parsed_or_report (codes "int") threshold_text (atoi threshold_text))))))
