-- ===== src/Tests/Processes.antt =====
-- The start and the stop of the process, at concrete events, and a line of the log.
use echo_backend.Base.{ℕ, ◌+◌, ◌≡◌, none, refl, true, some, List, [], ◌∷◌}
use echo_backend.Text.{codes, text_eq, is_empty}
use echo_backend.Effect.{◌>>=◌}
use echo_backend.Config.{
  load, require_env, require_duration, require_parsed, require_int64, require_int, env_or_default,
}
use echo_backend.Config.Numbers.{parse_int64}
use echo_backend.Errors.{ok, err, failure}
use echo_backend.Middleware.Gin.{text_value, get}
use echo_backend.Middleware.Logger.{Attr, string_attr, int_attr, duration_attr, handler}
use echo_backend.Lifecycle.{Outside, Event, stopped, signalled, finished, run, exit_status}
use echo_backend.Lifecycle.Orderly.{cold, IsOrderly, run-IsOrderly}
use mathlib.Core.Option
use echo_backend.Tests.Settings.{complete, five_seconds}

-- Everything answers.
abbrev outside : Outside
outside = record {
  env = complete;
  parse_duration = five_seconds;
  opened = λ _. ok tt;
  pinged = λ _ _ _. ok tt;
  shut = λ _. ok tt;
  is_closed = λ _. true;
}

-- The server tells that it was closed, and then a signal comes.
abbrev events : List Event
events = stopped (err (failure (codes "http: Server closed"))) ∷ signalled ∷ []

run-IsOrderly_example : IsOrderly outside events cold (run outside events)
run-IsOrderly_example = run-IsOrderly outside events

ended_well : (run outside events).0 ≡ some finished
unfolding run load ◌>>=◌ require_env text_eq is_empty require_duration require_parsed require_int64
    parse_int64 require_int env_or_default
ended_well = refl

-- No signal yet: the process goes on.
serving_still : (run outside []).0 ≡ none
unfolding run load ◌>>=◌ require_env text_eq is_empty require_duration require_parsed require_int64
    parse_int64 require_int env_or_default
serving_still = refl

-- An environment without variables.
refused_status : Option.map exit_status (run (record outside { env = λ _. none }) []).0 ≡ some 1
unfolding run load ◌>>=◌ require_env text_eq is_empty require_duration require_parsed require_int64
    parse_int64 require_int env_or_default exit_status
refused_status = refl

-- A request that takes 7 nanoseconds, of a user with a pseudonym.
logged_line :
    (handler {W = ℕ × List (List Attr)}
      (record { now = λ w. (w.0, w); new_uuid = λ w. (0, w) })
      (λ attrs w. (w.0, attrs ∷ w.1))
      (codes "GET")
      []
      (codes "/x")
      (λ w. (
        record { status = 404; values = (codes "pseudonym", text_value (codes "owl")) ∷ [] },
        (w.0 + 7, w.1),
      ))
      (3, [])).1
    ≡ (
      10,
      (string_attr (codes "method") (codes "GET")
            ∷ string_attr (codes "path") (codes "/x")
            ∷ int_attr (codes "status") 404
            ∷ duration_attr (codes "latency") 7
            ∷ string_attr (codes "pseudonym") (codes "owl")
            ∷ [])
          ∷ [],
    )
unfolding handler text_eq get is_empty
logged_line = refl
