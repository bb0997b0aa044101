-- ===== src/Lifecycle.antt =====
-- cmd/server/main.go: how the process starts and stops. What other packages return is given, and
-- the calls that the code makes of them are written down in order.
pub mod Orderly
use echo_backend.Base.{ℕ, Bool, Option, none, some, List, [], ◌∷◌, ◌++◌, if◌then◌else◌}
use echo_backend.Base.Int.{ℤ}
use echo_backend.Text.{Text, codes}
use echo_backend.Errors.{Error, wrapped, Result, ok, err}
use echo_backend.Config.{Config, Db, RedisConfig, Env, Loaded, loaded, refused, load, address, dsn}

pub data Call : Type 0 where
  -- `gorm.Open`, with the DSN
  open_database : Text → Call
  -- `redis.NewClient` with the address, the password and the number of the database, and `Ping`
  ping_redis : Text → Text → ℤ → Call
  -- `go feedHub.Run(hubCtx)` and `hubCancel()`
  start_hub cancel_hub : Call
  -- `server.ListenAndServe()` at the address with the timeouts to read and to write, and
  -- `server.Shutdown` with the timeout
  listen : Text → ℤ → ℤ → Call
  shut_down : ℤ → Call

-- What other packages return. `is_closed` is `errors.Is(err, http.ErrServerClosed)`.
pub record Outside : Type 0 where
  pub env : Env
  pub parse_duration : Text → Result ℤ
  pub opened : Text → Result (Unit {0})
  pub pinged : Text → Text → ℤ → Result (Unit {0})
  pub shut : ℤ → Result (Unit {0})
  pub is_closed : Error → Bool

-- What `run` may wake up for, in the order of their arrival: `ListenAndServe` returned, or SIGINT
-- or SIGTERM came.
pub data Event : Type 0 where
  stopped : Result (Unit {0}) → Event
  signalled : Event

-- The value that `run` returns. The faults of the configuration are those that `errors.Join` joins.
pub data Exit : Type 0 where
  bad_config : List Error → Exit
  failed : Error → Exit
  finished : Exit

-- What the `select` receives: nothing yet, an error of the server, or a signal.
pub data Wake : Type 0 where
  waiting : Wake
  server_failed : Error → Wake
  asked_to_stop : Wake

-- `log.Fatal` ends the process with the status 1.
unfoldable pub exit_status : Exit → ℕ
exit_status finished = 0
exit_status (bad_config errors) = 1
exit_status (failed e) = 1

module _ (o : Outside) where
  -- The goroutine of the server sends no error that is nil or tells that the server was closed.
  unfoldable pub await : List Event → Wake
  await [] = waiting
  await (signalled ∷ events) = asked_to_stop
  await (stopped (ok _) ∷ events) = await events
  await (stopped (err e) ∷ events) =
      let rest = await events in if o.is_closed e then rest else server_failed e

  unfoldable pub open_db : Db → Result (Unit {0}) × List Call
  open_db d = (o.opened (dsn d), open_database (dsn d) ∷ [])

  unfoldable pub open_redis : RedisConfig → Result (Unit {0}) × List Call
  open_redis r = (o.pinged r.addr r.password r.db, ping_redis r.addr r.password r.db ∷ [])

  abbrev pub shut_exit : Result (Unit {0}) → Exit
  shut_exit (ok _) = finished
  shut_exit (err e) = failed (wrapped (codes "shutdown server") e)

  -- What follows the `select`. The deferred `hubCancel` is the last call of each return.
  unfoldable pub finish : ℤ → Wake → Option Exit × List Call
  finish timeout waiting = (none, [])
  finish timeout (server_failed e) =
      (some (failed (wrapped (codes "start server") e)), cancel_hub ∷ [])
  finish timeout asked_to_stop =
      (some (shut_exit (o.shut timeout)), cancel_hub ∷ shut_down timeout ∷ cancel_hub ∷ [])

  unfoldable pub serve : Config → List Event → Option Exit × List Call
  unfolding finish await
  serve cfg events =
      let (exit, calls) = finish cfg.server.shutdown_timeout (await events) in
      (
        exit,
        start_hub
            ∷ listen (address cfg.server) cfg.server.read_timeout cfg.server.write_timeout
            ∷ calls,
      )

  unfoldable pub after_redis :
      Config → List Event → Result (Unit {0}) × List Call → Option Exit × List Call
  unfolding serve
  after_redis cfg events (err e, calls) = (some (failed (wrapped (codes "open redis") e)), calls)
  after_redis cfg events (ok _, calls) =
      let (exit, more) = serve cfg events in (exit, calls ++ more)

  unfoldable pub after_db :
      Config → List Event → Result (Unit {0}) × List Call → Option Exit × List Call
  unfolding after_redis open_redis
  after_db cfg events (err e, calls) = (some (failed (wrapped (codes "open database") e)), calls)
  after_db cfg events (ok _, calls) =
      let (exit, more) = after_redis cfg events (open_redis cfg.redis) in (exit, calls ++ more)

  unfoldable pub after_load : List Event → Loaded → Option Exit × List Call
  unfolding after_db open_db
  after_load events (refused errors) = (some (bad_config errors), [])
  after_load events (loaded cfg) = after_db cfg events (open_db cfg.db)

  -- The value that `run` returns, or `none` while it waits, and its calls.
  unfoldable pub run : List Event → Option Exit × List Call
  unfolding after_load
  run events = after_load events (load o.parse_duration o.env)
