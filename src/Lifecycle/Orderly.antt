-- ===== src/Lifecycle/Orderly.antt =====
-- The order of the calls of `run`, and what its return tells.
use echo_backend.Base.{
  ◌≡◌, refl, ap, Bool, Bool-cases, true, false, Option, none, some, List, [], ◌∷◌, ◌++◌, inl, inr,
  All,
}
use echo_backend.Text.{Text, codes}
use echo_backend.Errors.{Error, wrapped, Result, ok, err}
use echo_backend.Config.{Config, Loaded, loaded, refused, load, dsn}
use echo_backend.Lifecycle.{
  Call, open_database, ping_redis, start_hub, cancel_hub, listen, shut_down, Outside, Event,
  stopped, signalled, Exit, bad_config, failed, finished, Wake, waiting, server_failed,
  asked_to_stop, await, open_db, open_redis, shut_exit, finish, serve, after_redis, after_db,
  after_load, run,
}

-- How far the process has come. The hub runs in the last two but one.
pub data Phase : Type 0 where
  cold database_asked redis_asked hub_up serving halted : Phase

-- The one order that is allowed.
abbrev pub advance : Phase → Call → Option Phase
advance cold (open_database _) = some database_asked
advance database_asked (ping_redis _ _ _) = some redis_asked
advance redis_asked start_hub = some hub_up
advance hub_up (listen _ _ _) = some serving
advance serving cancel_hub = some halted
advance halted (shut_down _) = some halted
advance halted cancel_hub = some halted
advance _ _ = none

abbrev pub follow : List Call → Option Phase → Option Phase
follow [] p = p
follow (c ∷ calls) none = none
follow (c ∷ calls) (some p) = follow calls (advance p c)

-- The hub runs.
abbrev pub is_up : Phase → Bool
is_up hub_up = true
is_up serving = true
is_up cold = false
is_up database_asked = false
is_up redis_asked = false
is_up halted = false

module _ (o : Outside) where
  -- An event that wakes nobody.
  abbrev pub IsIgnored : Event → Type 0
  IsIgnored signalled = ⊥
  IsIgnored (stopped (ok _)) = Unit
  IsIgnored (stopped (err e)) = o.is_closed e ≡ true

  -- The first event that is not ignored.
  abbrev pub IsFirst : Event → List Event → Type 0
  IsFirst event events =
      (before after : List Event) × (events ≡ before ++ event ∷ after) × All IsIgnored before

  -- The configuration was read.
  abbrev pub IsLoaded : Config → Type 0
  IsLoaded cfg = load o.parse_duration o.env ≡ loaded cfg

  abbrev pub database_answer : Config → Result (Unit {0})
  database_answer cfg = o.opened (dsn cfg.db)

  abbrev pub redis_answer : Config → Result (Unit {0})
  redis_answer cfg = o.pinged cfg.redis.addr cfg.redis.password cfg.redis.db

  -- The configuration was read, and the database and Redis answered.
  abbrev pub IsOpened : Config → Type 0
  IsOpened cfg = IsLoaded cfg × (database_answer cfg ≡ ok tt) × (redis_answer cfg ≡ ok tt)

  -- What failed: the database, Redis, the server, or its shutdown, which was asked for.
  pub data IsCause (events : List Event) : Text → Error → Type 0 where
    database_failed :
        (cfg : Config) {e : Error}
        → IsLoaded cfg
        → database_answer cfg ≡ err e
        → IsCause events (codes "open database") e
    redis_failed :
        (cfg : Config) {e : Error}
        → IsLoaded cfg
        → database_answer cfg ≡ ok tt
        → redis_answer cfg ≡ err e
        → IsCause events (codes "open redis") e
    listening_failed :
        (cfg : Config) {e : Error}
        → IsOpened cfg
        → IsFirst (stopped (err e)) events
        → o.is_closed e ≡ false
        → IsCause events (codes "start server") e
    shutdown_failed :
        (cfg : Config) {e : Error}
        → IsOpened cfg
        → IsFirst signalled events
        → o.shut cfg.server.shutdown_timeout ≡ err e
        → IsCause events (codes "shutdown server") e

  -- What a return tells, and where the process is then.
  abbrev pub IsExplained : List Event → Option Exit → Phase → Type 0
  IsExplained events none p = (cfg : Config) × IsOpened cfg × All IsIgnored events × (p ≡ serving)
  IsExplained events (some finished) p =
      (cfg : Config) × IsOpened cfg
      × IsFirst signalled events
      × (o.shut cfg.server.shutdown_timeout ≡ ok tt)
      × (p ≡ halted)
  IsExplained events (some (bad_config errors)) p =
      (load o.parse_duration o.env ≡ refused errors) × (p ≡ cold)
  IsExplained events (some (failed e)) p =
      (where_from : Text) × (cause : Error) × (e ≡ wrapped where_from cause)
      × IsCause events where_from cause
      × (is_up p ≡ false)

  -- The calls come in order from the start on, and the exit is explained where they lead.
  abbrev pub IsOrderly : List Event → Phase → Option Exit × List Call → Type 0
  IsOrderly events start x =
      (p : Phase) × (follow x.1 (some start) ≡ some p) × IsExplained events x.0 p

  -- What `await` tells of the events.
  abbrev IsWoken : List Event → Wake → Type 0
  IsWoken events waiting = All IsIgnored events
  IsWoken events asked_to_stop = IsFirst signalled events
  IsWoken events (server_failed e) = IsFirst (stopped (err e)) events × (o.is_closed e ≡ false)

  -- An event that is ignored changes nothing.
  IsWoken-cons :
      (event : Event) (events : List Event) (wake : Wake)
      → IsIgnored event
      → IsWoken events wake
      → IsWoken (event ∷ events) wake
  IsWoken-cons event events waiting skip woken = (skip, woken)
  IsWoken-cons event events asked_to_stop skip (before, after, e, ignored) =
      (event ∷ before, after, ap (λ l. event ∷ l) e, (skip, ignored))
  IsWoken-cons event events (server_failed x) skip ((before, after, e, ignored), opened) =
      ((event ∷ before, after, ap (λ l. event ∷ l) e, (skip, ignored)), opened)

  await-IsWoken : (events : List Event) → IsWoken events (await o events)
  unfolding await
  await-IsWoken [] = tt
  await-IsWoken (signalled ∷ events) = ([], events, refl, tt)
  await-IsWoken (stopped (ok u) ∷ events) =
      IsWoken-cons (stopped (ok u)) events (await o events) tt (await-IsWoken events)
  await-IsWoken (stopped (err e) ∷ events) = elim (Bool-cases (o.is_closed e)) [
    | inl closed ↦
        rw closed
          (IsWoken-cons (stopped (err e)) events (await o events) closed (await-IsWoken events))
    | inr other ↦ rw other (([], events, refl, tt), other)
  ]

  module _ (events : List Event) (cfg : Config) where
    shut_lem :
        (r : Result (Unit {0}))
        → IsOpened cfg
        → IsFirst signalled events
        → o.shut cfg.server.shutdown_timeout ≡ r
        → IsExplained events (some (shut_exit o r)) halted
    shut_lem (ok tt) opened first e = (cfg, opened, first, e, refl)
    shut_lem (err x) opened first e = (_, x, refl, shutdown_failed cfg opened first e, refl)

    serve_lem :
        (wake : Wake)
        → IsOpened cfg
        → IsWoken events wake
        → IsOrderly events serving (finish o cfg.server.shutdown_timeout wake)
    unfolding finish
    serve_lem waiting opened woken = (serving, refl, (cfg, opened, woken, refl))
    serve_lem (server_failed e) opened woken =
        (halted, refl, (_, e, refl, listening_failed cfg opened woken.0 woken.1, refl))
    serve_lem asked_to_stop opened woken = (halted, refl, shut_lem _ opened woken refl)

    after_redis_lem :
        (r : Result (Unit {0}))
        → IsLoaded cfg
        → database_answer cfg ≡ ok tt
        → redis_answer cfg ≡ r
        → IsOrderly events database_asked (after_redis o cfg events (r, (open_redis o cfg.redis).1))
    unfolding after_redis serve open_redis
    after_redis_lem (err e) read answered pinged =
        (redis_asked, refl, (_, e, refl, redis_failed cfg read answered pinged, refl))
    after_redis_lem (ok u) read answered pinged =
        serve_lem (await o events) (read, answered, pinged) (await-IsWoken events)

    after_db_lem :
        (r : Result (Unit {0}))
        → IsLoaded cfg
        → database_answer cfg ≡ r
        → IsOrderly events cold (after_db o cfg events (r, (open_db o cfg.db).1))
    unfolding after_db open_db open_redis
    after_db_lem (err e) read answered =
        (database_asked, refl, (_, e, refl, database_failed cfg read answered, refl))
    after_db_lem (ok u) read answered = after_redis_lem (redis_answer cfg) read answered refl

  -- The calls of `run` come in one order: the database is opened, Redis pinged, the hub started and
  -- the server told to listen, and the hub is stopped before any shutdown. While `run` waits, all
  -- four were made and no event has come that wakes it. It returns without an error only where a
  -- signal was the first event that counts and the shutdown succeeded; otherwise with the faults of
  -- the configuration, before any call, or with the error of what failed, in its context: the
  -- database, Redis, the server, or the shutdown. Whenever it returns, the hub does not run.
  pub run-IsOrderly : (events : List Event) → IsOrderly events cold (run o events)
  unfolding run after_load open_db
  run-IsOrderly events = go (load o.parse_duration o.env) refl
    where
      go :
          (l : Loaded)
          → load o.parse_duration o.env ≡ l
          → IsOrderly events cold (after_load o events l)
      go (refused errors) e = (cold, refl, (e, refl))
      go (loaded cfg) e = after_db_lem events cfg (o.opened (dsn cfg.db)) e refl
