-- ===== src/Hub/Delivery.antt =====
-- Whom a broadcast of the hub reaches.
use echo_backend.Base.{
  ℕ, ◌≤◌, ◌<◌, ◌≡◌, ◌∙◌, refl, ap, subst, Bool-cases, false, ◌||◌, inl, inr, List, [], ◌∷◌, ◌++◌,
  ◌==◌, ltb, length, arith,
}
use echo_backend.Text.{Text}
use echo_backend.Hub.{Hub, times, drop_client, remove, send, deliver, deliver_each, Steps, new_hub}
use echo_backend.Hub.Panics.{times-without, Steps-IsSound}

-- Nothing about the client has changed.
abbrev pub IsKept : ℕ → Hub → Hub → Type 0
IsKept d h h' =
    (h'.buffers d ≡ h.buffers d)
    × (times d h'.clients ≡ times d h.clients)
    × (times d h'.closed ≡ times d h.closed)

-- A client with room gets the payload behind what it has, and one without room is dropped.
abbrev pub IsReached : Text → ℕ → Hub → Hub → Type 0
IsReached payload d h h' =
    (length (h.buffers d) < 256
      → (h'.buffers d ≡ h.buffers d ++ payload ∷ []) × (times d h'.clients ≡ times d h.clients))
    × (256 ≤ length (h.buffers d)
        → (h'.buffers d ≡ h.buffers d) × (times d h'.clients ≡ 0) × (0 < times d h'.closed))

pub remove-IsKept : (c d : ℕ) (h : Hub) → (d == c) ≡ false → IsKept d h (remove c h)
unfolding remove drop_client
remove-IsKept c d h other = elim (Bool-cases (ltb 0 (times c h.clients))) [
  | inl present ↦ rw present (refl, ground (arith, times-without c d h.clients), ground arith)
  | inr absent ↦ rw absent (refl, refl, refl)
]

deliver-IsKept :
    (payload : Text) (c d : ℕ) (h : Hub) → (d == c) ≡ false → IsKept d h (deliver payload c h)
unfolding deliver send
deliver-IsKept payload c d h other =
    elim (Bool-cases (ltb (length (h.buffers c)) 256 || ltb 0 (times c h.closed))) [
      | inl room ↦ rw room (rw other refl, refl, refl)
      | inr full ↦ rw full (remove-IsKept c d h other)
    ]

deliver-IsReached :
    (payload : Text) (c : ℕ) (h : Hub)
    → 0 < times c h.clients
    → times c h.closed ≡ 0
    → IsReached payload c h (deliver payload c h)
unfolding deliver send remove drop_client
deliver-IsReached payload c h present usable = (
  λ room. (rw (room_lem room) (ground arith), rw (room_lem room) refl),
  λ full. (
    rw (full_lem full) refl,
    rw (full_lem full) (ground (arith, times-without c c h.clients)),
    rw (full_lem full) (ground arith),
  ),
)
  where
    room_lem : length (h.buffers c) < 256 → deliver payload c h ≡ send payload c h
    room_lem room = ground arith

    full_lem : 256 ≤ length (h.buffers c) → deliver payload c h ≡ drop_client c h
    full_lem full = ground arith

deliver_each-IsKept :
    (payload : Text) (cs : List ℕ) (d : ℕ) (h : Hub)
    → times d cs ≡ 0
    → IsKept d h (deliver_each payload cs h)
unfolding deliver_each
deliver_each-IsKept payload [] d h absent = (refl, refl, refl)
deliver_each-IsKept payload (c ∷ cs) d h absent =
    let (buffers, clients, closed) = deliver-IsKept payload c d h (ground arith) in
    let (buffers', clients', closed') =
      deliver_each-IsKept payload cs d (deliver payload c h) (ground arith) in
    (buffers' ∙ buffers, clients' ∙ clients, closed' ∙ closed)

IsReached-IsKept :
    (payload : Text) (d : ℕ) (h h' h'' : Hub)
    → IsReached payload d h h'
    → IsKept d h' h''
    → IsReached payload d h h''
IsReached-IsKept payload d h h' h'' (room, full) (buffers, clients, closed) = (
  λ r. (buffers ∙ (room r).0, clients ∙ (room r).1),
  λ f. (buffers ∙ (full f).0, clients ∙ (full f).1, omega (arith, closed, (full f).2)),
)

IsKept-IsReached :
    (payload : Text) (d : ℕ) (h h' h'' : Hub)
    → IsKept d h h'
    → IsReached payload d h' h''
    → IsReached payload d h h''
IsKept-IsReached payload d h h' h'' (buffers, clients, closed) (room, full) = (
  λ r. (let x = room (rw buffers r) in (x.0 ∙ ap (λ l. l ++ payload ∷ []) buffers, x.1 ∙ clients)),
  λ f. (let x = full (rw buffers f) in (x.0 ∙ buffers, x.1, x.2)),
)

deliver_each-IsReached :
    (payload : Text) (cs : List ℕ) (d : ℕ) (h : Hub)
    → times d cs ≡ 1
    → 0 < times d h.clients
    → times d h.closed ≡ 0
    → IsReached payload d h (deliver_each payload cs h)
unfolding deliver_each
deliver_each-IsReached payload [] d h once present usable = absurd (omega (arith, once))
deliver_each-IsReached payload (c ∷ cs) d h once present usable = elim (Bool-cases (d == c)) [
  | inl is ↦
      let same : d ≡ c = ground arith in
      IsReached-IsKept payload d h (deliver payload c h)
        (deliver_each payload cs (deliver payload c h))
        (subst (λ x. IsReached payload d h (deliver payload x h)) same
          (deliver-IsReached payload d h present usable))
        (deliver_each-IsKept payload cs d (deliver payload c h) (ground arith))
  | inr other ↦
      let (buffers, clients, closed) = deliver-IsKept payload c d h other in
      IsKept-IsReached payload d h (deliver payload c h)
        (deliver_each payload cs (deliver payload c h)) (buffers, clients, closed)
        (deliver_each-IsReached payload cs d (deliver payload c h) (ground arith)
          (omega (arith, clients)) (closed ∙ usable))
]

-- In every state that the hub reaches, a broadcast in any order of the clients puts the payload
-- behind the messages of each client that has fewer than 256, and drops each client that has 256,
-- whose messages stay as they are; and nothing about those who are no clients changes.
pub deliver_each-clients :
    (h : Hub) (payload : Text) (rest : List Text) (order : List ℕ) (d : ℕ)
    → Steps new_hub h
    → ((c : ℕ) → times c order ≡ times c h.clients)
    → (0 < times d h.clients
        → IsReached payload d h (deliver_each payload order (record h { broadcast = rest })))
      × (times d h.clients ≡ 0
          → IsKept d h (deliver_each payload order (record h { broadcast = rest })))
deliver_each-clients h payload rest order d steps same =
    let once = (Steps-IsSound h steps).1 d in
    (
      λ present.
          deliver_each-IsReached payload order d (record h { broadcast = rest })
            (omega (arith, same d, present, once)) present (omega (arith, present, once)),
      λ absent.
          deliver_each-IsKept payload order d (record h { broadcast = rest }) (same d ∙ absent),
    )
