-- ===== src/Hub/Order/Drops.antt =====
-- What a drop of a client leaves of it and of the others.
use echo_backend.Base.{
  ℕ, ◌<◌, ◌≡◌, ◌∙◌, refl, subst, Bool-cases, true, false, inl, inr, List, [], ◌∷◌, ◌==◌, ltb, arith,
}
use echo_backend.Hub.{Hub, times, drop_client, remove, drop_each}
use echo_backend.Hub.Panics.{times-without}
use echo_backend.Hub.Delivery.{IsKept}

-- The client was dropped, with its messages left as they are.
abbrev pub IsDropped : ℕ → Hub → Hub → Type 0
IsDropped d h h' = (h'.buffers d ≡ h.buffers d) × (times d h'.clients ≡ 0) × (0 < times d h'.closed)

-- A drop, or none, of a client that is one of the hub, or not.
abbrev pub IsPart : ℕ → Hub → Hub → Type 0
IsPart d h h' = (0 < times d h.clients → IsDropped d h h') × (times d h.clients ≡ 0 → IsKept d h h')

pub drop_client-IsDropped : (d : ℕ) (h : Hub) → IsDropped d h (drop_client d h)
unfolding drop_client
drop_client-IsDropped d h = (refl, ground (arith, times-without d d h.clients), ground arith)

pub drop_client-IsKept : (c d : ℕ) (h : Hub) → (d == c) ≡ false → IsKept d h (drop_client c h)
unfolding drop_client
drop_client-IsKept c d h other = (refl, ground (arith, times-without c d h.clients), ground arith)

pub drop_each-IsKept :
    (cs : List ℕ) (d : ℕ) (h : Hub) → times d cs ≡ 0 → IsKept d h (drop_each cs h)
unfolding drop_each
drop_each-IsKept [] d h absent = (refl, refl, refl)
drop_each-IsKept (c ∷ cs) d h absent =
    let (buffers, clients, closed) = drop_client-IsKept c d h (ground arith) in
    let (buffers', clients', closed') = drop_each-IsKept cs d (drop_client c h) (ground arith) in
    (buffers' ∙ buffers, clients' ∙ clients, closed' ∙ closed)

pub drop_each-IsDropped :
    (cs : List ℕ) (d : ℕ) (h : Hub) → times d cs ≡ 1 → IsDropped d h (drop_each cs h)
unfolding drop_each
drop_each-IsDropped [] d h once = absurd (omega (arith, once))
drop_each-IsDropped (c ∷ cs) d h once = elim (Bool-cases (d == c)) [
  | inl is ↦
      let same : d ≡ c = ground arith in
      let (buffers, clients, closed) =
        subst (λ x. IsDropped d h (drop_client x h)) same (drop_client-IsDropped d h) in
      let (buffers', clients', closed') = drop_each-IsKept cs d (drop_client c h) (ground arith) in
      (buffers' ∙ buffers, clients' ∙ clients, omega (arith, closed', closed))
  | inr other ↦
      let (buffers, clients, closed) = drop_client-IsKept c d h other in
      let (buffers', clients', closed') =
        drop_each-IsDropped cs d (drop_client c h) (ground arith) in
      (buffers' ∙ buffers, clients', closed')
]

pub remove-IsPart : (d : ℕ) (h : Hub) → IsPart d h (remove d h)
unfolding remove
remove-IsPart d h = (
  λ present.
      (let e : ltb 0 (times d h.clients) ≡ true = ground arith in rw e (drop_client-IsDropped d h)),
  λ absent. (let e : ltb 0 (times d h.clients) ≡ false = ground arith in rw e (refl, refl, refl)),
)
