-- ===== src/Hub/Order/Unbroken.antt =====
-- Which messages a client of the hub gets, over any run.
use echo_backend.Base.{
  ℕ, ◌<◌, ◌≡◌, ◌∙◌, refl, sym, ap, Bool-cases, inl, inr, List, [], ◌++◌, ltb, append_nil, arith,
}
use echo_backend.Text.{Text}
use echo_backend.Hub.{Hub, times, Steps, here, further, new_hub}
use echo_backend.Hub.Order.{Run, begin, on}
use echo_backend.Hub.Order.Heard.{Heard, Step-Heard}

Run-Steps : (d : ℕ) (h : Hub) (log start got : List Text) → Run d h log start got → Steps new_hub h
Run-Steps d _ _ _ _ begin = here new_hub
Run-Steps d _ _ _ _ (on h h' log start got run step) =
    further new_hub h h' (Run-Steps d h log start got run) step

Run-Heard :
    (d : ℕ) (h : Hub) (log start got : List Text) → Run d h log start got → Heard d start h log got
Run-Heard d _ _ _ _ begin = record {
  served = λ p. absurd (omega arith);
  left = λ p. absurd (omega arith);
  fresh = λ p q. (refl, refl, refl);
}
Run-Heard d _ _ _ _ (on h h' log start got run step) =
    let steps = Run-Steps d h log start got run in
    Step-Heard d start h log got steps (Run-Heard d h log start got run) h' step
      (further new_hub h h' steps step)

-- Over any run of the hub, whatever the calls, the choices of its loop and the pace of the clients:
-- what a client has taken, with what its channel still holds, is an unbroken stretch, in their
-- order, of the payloads that the hub has handled since it took up the client, from the first of
-- them on; and as long as the hub serves the client, it is all of them.
pub Run-unbroken :
    (d : ℕ) (h : Hub) (log start got : List Text)
    → Run d h log start got
    → (after : List Text) × (log ≡ start ++ ((got ++ h.buffers d) ++ after))
      × (0 < times d h.clients → after ≡ [])
Run-unbroken d h log start got run = elim (Bool-cases (ltb 0 (times d h.clients))) [
  | inl e ↦ ([], heard.served (ground arith) ∙ ap (λ l. start ++ l) (sym (append_nil _)), λ _. refl)
  | inr e ↦ elim (Bool-cases (ltb 0 (times d h.closed))) [
    | inl f ↦
        let (after, split) = heard.left (ground arith) in (after, split, λ p. absurd (ground arith))
    | inr f ↦
        let (none_got, none_held, not_joined) = heard.fresh (ground arith) (ground arith) in
        (log, rw (none_got, none_held, not_joined) refl, λ p. absurd (ground arith))
  ]
]
  where
    heard : Heard d start h log got
    heard = Run-Heard d h log start got run
