-- ===== src/Hub/Order.antt =====
-- The runs of the hub, with what it has handled and what one of its clients has taken.
pub mod Drops
pub mod Heard
pub mod Unbroken
use echo_backend.Base.{
  ℕ, suc, ◌+◌, ◌≤◌, ◌<◌, ◌≡◌, ◌∙◌, refl, sym, ap, subst, Bool-cases, true, false, inl, inr, List,
  [], ◌∷◌, ◌++◌, ◌==◌, ltb, length, append_nil, append_assoc, arith, if◌then◌else◌,
}
use echo_backend.Text.{Text}
use echo_backend.Hub.{
  Hub, times, without, add_client, drop_client, remove, deliver_each, drop_each, Step,
  call_register, call_unregister, call_broadcast, run_register, run_unregister, run_broadcast,
  run_done, receive, Steps, here, further, new_hub,
}
use echo_backend.Hub.Panics.{times-without, IsSound, Steps-IsSound}
use echo_backend.Hub.Delivery.{IsReached, IsKept, remove-IsKept, deliver_each-clients}

-- The payload that a step takes from the hub's channel, and the message that it takes from the
-- client's.
abbrev pub handled : (h h' : Hub) → Step h h' → List Text
handled h h' (call_register _ _ _ _) = []
handled h h' (call_unregister _ _ _) = []
handled h h' (call_broadcast _ _ _) = []
handled h h' (run_register _ _ _ _ _) = []
handled h h' (run_unregister _ _ _ _ _) = []
handled h h' (run_broadcast payload _ _ _ _ _ _) = payload ∷ []
handled h h' (run_done _ _ _ _) = []
handled h h' (receive _ _ _ _ _) = []

abbrev pub taken : ℕ → (h h' : Hub) → Step h h' → List Text
taken d h h' (call_register _ _ _ _) = []
taken d h h' (call_unregister _ _ _) = []
taken d h h' (call_broadcast _ _ _) = []
taken d h h' (run_register _ _ _ _ _) = []
taken d h h' (run_unregister _ _ _ _ _) = []
taken d h h' (run_broadcast _ _ _ _ _ _ _) = []
taken d h h' (run_done _ _ _ _) = []
taken d h h' (receive c message _ _ _) = if d == c then message ∷ [] else []

-- What the hub had handled when it took up the client.
abbrev pub joined : ℕ → (h h' : Hub) → Step h h' → List Text → List Text → List Text
joined d h h' (call_register _ _ _ _) log start = start
joined d h h' (call_unregister _ _ _) log start = start
joined d h h' (call_broadcast _ _ _) log start = start
joined d h h' (run_register c _ _ _ _) log start = if d == c then log else start
joined d h h' (run_unregister _ _ _ _ _) log start = start
joined d h h' (run_broadcast _ _ _ _ _ _ _) log start = start
joined d h h' (run_done _ _ _ _) log start = start
joined d h h' (receive _ _ _ _ _) log start = start

-- A run of the hub, with the payloads that it has handled, those that it had handled when it took up
-- the client (none, if it has not), and the messages that the client has taken.
pub data Run (d : ℕ) : Hub → List Text → List Text → List Text → Type 0 where
  begin : Run d new_hub [] [] []
  on :
      (h h' : Hub) (log start got : List Text)
      → Run d h log start got
      → (step : Step h h')
      → Run d h'
          (log ++ handled h h' step)
          (joined d h h' step log start)
          (got ++ taken d h h' step)
