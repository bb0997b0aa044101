-- ===== src/Hub/Panics.antt =====
-- The hub never closes a channel twice, nor sends on a closed one.
use echo_backend.Base.{
  ℕ, ◌+◌, ◌≤◌, ◌<◌, ◌≡◌, refl, ap, Bool-cases, false, ◌||◌, inl, inr, List, [], ◌∷◌, ◌==◌, ltb,
  length, count-append, arith, if◌then◌else◌,
}
use echo_backend.Text.{Text}
use echo_backend.Hub.{
  Hub, times, without, add_client, drop_client, remove, send, deliver, deliver_each, drop_each,
  Step, call_register, call_unregister, call_broadcast, run_register, run_unregister, run_broadcast,
  run_done, receive, Steps, here, further, new_hub,
}

-- The lists in which a client stands.
abbrev places : ℕ → Hub → ℕ
places c h = times c h.clients + times c h.register + times c h.closed

-- A client that was registered once is in one place at most, and nothing has panicked.
abbrev pub IsSound : Hub → Type 0
IsSound h =
    (h.panicked ≡ false) × ((c : ℕ) → (places c h ≤ times c h.known) × (times c h.known ≤ 1))

pub times-without :
    (c d : ℕ) (xs : List ℕ) → times d (without c xs) ≡ (if d == c then 0 else times d xs)
unfolding without
times-without c d [] = ground arith
times-without c d (x ∷ xs) = ground (arith, times-without c d xs)

times-add_client : (c d : ℕ) (xs : List ℕ) → times d (add_client c xs) ≤ times d (c ∷ xs)
unfolding add_client
times-add_client c d xs = ground arith

-- A client of the hub is closed for the first time.
drop_client-IsSound :
    (c : ℕ) (h : Hub) → 0 < times c h.clients → IsSound h → IsSound (drop_client c h)
unfolding drop_client
drop_client-IsSound c h present (calm, once) = (
  ground (arith, once c),
  λ d. (ground (arith, once c, once d, times-without c d h.clients), (once d).1),
)

remove-IsSound : (c : ℕ) (h : Hub) → IsSound h → IsSound (remove c h)
unfolding remove
remove-IsSound c h sound = elim (Bool-cases (ltb 0 (times c h.clients))) [
  | inl present ↦ rw (present, remove) (drop_client-IsSound c h (ground arith) sound)
  | inr absent ↦ rw (absent, remove) sound
]

-- The clients that a loop has yet to visit are clients of the hub.
abbrev IsPending : List ℕ → Hub → Type 0
IsPending cs h = (d : ℕ) → times d cs ≤ times d h.clients

send-IsSound :
    (payload : Text) (c : ℕ) (h : Hub)
    → 0 < times c h.clients
    → IsSound h
    → IsSound (send payload c h)
unfolding send
send-IsSound payload c h present (calm, once) = (ground (arith, once c), once)

deliver-IsSound :
    (payload : Text) (c : ℕ) (h : Hub)
    → 0 < times c h.clients
    → IsSound h
    → IsSound (deliver payload c h)
unfolding deliver
deliver-IsSound payload c h present sound =
    elim (Bool-cases (ltb (length (h.buffers c)) 256 || ltb 0 (times c h.closed))) [
      | inl room ↦ rw (room, deliver) (send-IsSound payload c h present sound)
      | inr full ↦ rw (full, deliver) (remove-IsSound c h sound)
    ]

remove-others :
    (c d : ℕ) (h : Hub) → (d == c) ≡ false → times d (remove c h).clients ≡ times d h.clients
unfolding remove drop_client
remove-others c d h other = ground (arith, times-without c d h.clients)

deliver-others :
    (payload : Text) (c d : ℕ) (h : Hub)
    → (d == c) ≡ false
    → times d (deliver payload c h).clients ≡ times d h.clients
unfolding deliver send
deliver-others payload c d h other =
    elim (Bool-cases (ltb (length (h.buffers c)) 256 || ltb 0 (times c h.closed))) [
      | inl room ↦ rw (room, deliver) refl
      | inr full ↦ rw (full, deliver) (remove-others c d h other)
    ]

-- The head of a pending list is in it once, so the tail stays pending after the head's turn.
IsPending-tail :
    (c : ℕ) (cs : List ℕ) (h h' : Hub)
    → IsPending (c ∷ cs) h
    → IsSound h
    → ((d : ℕ) → (d == c) ≡ false → times d h'.clients ≡ times d h.clients)
    → IsPending cs h'
IsPending-tail c cs h h' pending (calm, once) others d = elim (Bool-cases (d == c)) [
  | inl is ↦ ground (arith, once d, pending d)
  | inr other ↦ ground (arith, pending d, others d other)
]

head-present : (c : ℕ) (cs : List ℕ) (h : Hub) → IsPending (c ∷ cs) h → 0 < times c h.clients
head-present c cs h pending = ground (arith, pending c)

deliver_each-IsSound :
    (payload : Text) (cs : List ℕ) (h : Hub)
    → IsPending cs h
    → IsSound h
    → IsSound (deliver_each payload cs h)
unfolding deliver_each
deliver_each-IsSound payload [] h pending sound = sound
deliver_each-IsSound payload (c ∷ cs) h pending sound =
    deliver_each-IsSound payload cs (deliver payload c h)
      (IsPending-tail c cs h (deliver payload c h) pending sound
        (λ d. deliver-others payload c d h))
      (deliver-IsSound payload c h (head-present c cs h pending) sound)

drop_client-others :
    (c d : ℕ) (h : Hub) → (d == c) ≡ false → times d (drop_client c h).clients ≡ times d h.clients
unfolding drop_client
drop_client-others c d h other = ground (arith, times-without c d h.clients)

drop_each-IsSound : (cs : List ℕ) (h : Hub) → IsPending cs h → IsSound h → IsSound (drop_each cs h)
unfolding drop_each
drop_each-IsSound [] h pending sound = sound
drop_each-IsSound (c ∷ cs) h pending sound =
    drop_each-IsSound cs (drop_client c h)
      (IsPending-tail c cs h (drop_client c h) pending sound (λ d. drop_client-others c d h))
      (drop_client-IsSound c h (head-present c cs h pending) sound)

Step-IsSound : (h h' : Hub) → Step h h' → IsSound h → IsSound h'
Step-IsSound h h' (call_register c _ new _) (calm, once) =
    (calm, λ d. ground (arith, once d, count-append (λ x. x == d) h.register (c ∷ [])))
Step-IsSound h h' (call_unregister c _ _) sound = sound
Step-IsSound h h' (call_broadcast payload _ _) sound = sound
Step-IsSound h h' (run_register c rest _ _ e) (calm, once) =
    (calm, λ d. ground (arith, once d, times-add_client c d h.clients, ap (times d) e))
Step-IsSound h h' (run_unregister c rest _ _ _) sound = remove-IsSound c _ sound
Step-IsSound h h' (run_broadcast payload rest order _ _ _ same) sound =
    deliver_each-IsSound payload order _ (λ d. omega (arith, same d)) sound
Step-IsSound h h' (run_done order _ _ same) sound =
    drop_each-IsSound order _ (λ d. omega (arith, same d)) sound
Step-IsSound h h' (receive c message rest _ _) sound = sound

-- In every state that the hub reaches, from any calls and in any order of its loop, no closed
-- channel was closed again or sent on, and a client is still waiting, served or closed, in one of
-- the three at most.
pub Steps-IsSound : (h : Hub) → Steps new_hub h → IsSound h
Steps-IsSound h (here _) = (refl, λ c. (omega arith, omega arith))
Steps-IsSound h (further _ h' _ steps step) = Step-IsSound h' h step (Steps-IsSound h' steps)
