-- ===== src/Hub/Order/Heard.antt =====
-- What each step of the hub makes of a client's messages.
use echo_backend.Base.{
  ℕ, suc, ◌<◌, ◌≡◌, ◌∙◌, refl, sym, ap, subst, Bool-cases, inl, inr, List, [], ◌∷◌, ◌++◌, ◌==◌, ltb,
  length, append_nil, append_assoc, arith, if◌then◌else◌,
}
use echo_backend.Text.{Text}
use echo_backend.Hub.{
  Hub, times, add_client, remove, deliver_each, Step, call_register, call_unregister,
  call_broadcast, run_register, run_unregister, run_broadcast, run_done, receive, Steps, new_hub,
}
use echo_backend.Hub.Panics.{Steps-IsSound}
use echo_backend.Hub.Delivery.{IsKept, remove-IsKept, deliver_each-clients}
use echo_backend.Hub.Order.Drops.{
  IsDropped, IsPart, drop_each-IsKept, drop_each-IsDropped, remove-IsPart,
}
use echo_backend.Hub.Order.{handled, taken, joined}

pub record Heard (d : ℕ) (start : List Text) (h : Hub) (log got : List Text) : Type 0 where
  pub served : 0 < times d h.clients → log ≡ start ++ (got ++ h.buffers d)
  pub left :
      0 < times d h.closed → (after : List Text) × (log ≡ start ++ ((got ++ h.buffers d) ++ after))
  pub fresh :
      times d h.clients ≡ 0 → times d h.closed ≡ 0 → (got ≡ []) × (h.buffers d ≡ []) × (start ≡ [])

pub Heard-kept :
    (d : ℕ) (start : List Text) (h h' : Hub) (log got : List Text)
    → IsKept d h h'
    → Heard d start h log got
    → Heard d start h' log got
Heard-kept d start h h' log got (buffers, clients, closed) heard = record {
  served = λ p. rw buffers (heard.served (rw clients at p));
  left = λ p. rw buffers (heard.left (rw closed at p));
  fresh = λ p q. rw buffers (heard.fresh (rw clients at p) (rw closed at q));
}

pub Heard-dropped :
    (d : ℕ) (start : List Text) (h h' : Hub) (log got more : List Text)
    → 0 < times d h.clients
    → IsDropped d h h'
    → Heard d start h log got
    → Heard d start h' (log ++ more) got
Heard-dropped d start h h' log got more present (buffers, clients, closed) heard =
    let split = heard.served present in
    record {
      served = λ p. absurd (omega (arith, clients));
      left = λ p. (
        more,
        rw buffers (ap (λ l. l ++ more) split ∙ append_assoc start (got ++ h.buffers d) more),
      );
      fresh = λ p q. absurd (omega (arith, closed));
    }

-- What the hub handles after it has dropped the client, or before it serves it.
pub Heard-missed :
    (d : ℕ) (start : List Text) (h h' : Hub) (log got more : List Text)
    → times d h.clients ≡ 0
    → IsKept d h h'
    → Heard d start h log got
    → Heard d start h' (log ++ more) got
Heard-missed d start h h' log got more absent (buffers, clients, closed) heard = record {
  served = λ p. absurd (omega (arith, clients, absent));
  left = λ p.
      (let (after, split) = heard.left (rw closed at p) in
        (
          after ++ more,
          rw buffers (
              ap (λ l. l ++ more) split
              ∙ append_assoc start ((got ++ h.buffers d) ++ after) more
              ∙ ap (λ l. start ++ l) (append_assoc (got ++ h.buffers d) after more)),
        ));
  fresh = λ p q. rw buffers (heard.fresh absent (rw closed at q));
}

-- A payload joins the messages of a client that has room.
pub Heard-sent :
    (d : ℕ) (start : List Text) (h h' : Hub) (log got : List Text) (payload : Text)
    → 0 < times d h.clients
    → h'.buffers d ≡ h.buffers d ++ payload ∷ []
    → times d h'.clients ≡ times d h.clients
    → times d h'.closed ≡ 0
    → Heard d start h log got
    → Heard d start h' (log ++ payload ∷ []) got
Heard-sent d start h h' log got payload present buffers clients closed heard =
    let split = heard.served present in
    record {
      served = λ p. rw buffers (
          ap (λ l. l ++ payload ∷ []) split
          ∙ append_assoc start (got ++ h.buffers d) (payload ∷ [])
          ∙ ap (λ l. start ++ l) (append_assoc got (h.buffers d) (payload ∷ [])));
      left = λ p. absurd (omega (arith, closed));
      fresh = λ p q. absurd (omega (arith, clients, present));
    }

pub Heard-got_nil :
    (d : ℕ) (start : List Text) (h : Hub) (log got : List Text)
    → Heard d start h log got
    → Heard d start h log (got ++ [])
Heard-got_nil d start h log got heard = subst (Heard d start h log) (sym (append_nil got)) heard

-- A step at which nothing is handled, and nothing taken.
pub Heard-quiet :
    (d : ℕ) (start : List Text) (h : Hub) (log got : List Text)
    → Heard d start h log got
    → Heard d start h (log ++ []) (got ++ [])
Heard-quiet d start h log got heard =
    subst (λ l. Heard d start h l (got ++ [])) (sym (append_nil log))
      (Heard-got_nil d start h log got heard)

pub Heard-part :
    (d : ℕ) (start : List Text) (h h' : Hub) (log got more : List Text)
    → IsPart d h h'
    → Heard d start h log got
    → Heard d start h' (log ++ more) got
Heard-part d start h h' log got more (drops, keeps) heard =
    elim (Bool-cases (ltb 0 (times d h.clients))) [
      | inl e ↦
          let present : 0 < times d h.clients = ground arith in
          Heard-dropped d start h h' log got more present (drops present) heard
      | inr e ↦
          let absent : times d h.clients ≡ 0 = ground arith in
          Heard-missed d start h h' log got more absent (keeps absent) heard
    ]

pub Heard-remove :
    (c d : ℕ) (start : List Text) (h : Hub) (log got : List Text)
    → Heard d start h log got
    → Heard d start (remove c h) (log ++ []) got
Heard-remove c d start h log got heard = elim (Bool-cases (d == c)) [
  | inl is ↦
      let same : d ≡ c = ground arith in
      subst (λ x. Heard d start (remove x h) (log ++ []) got) same
        (Heard-part d start h (remove d h) log got [] (remove-IsPart d h) heard)
  | inr other ↦
      subst (λ l. Heard d start (remove c h) l got) (sym (append_nil log))
        (Heard-kept d start h (remove c h) log got (remove-IsKept c d h other) heard)
]

-- A registered client, which the hub now serves, starts with nothing.
pub Heard-added :
    (c d : ℕ) (start : List Text) (h h' : Hub) (log got : List Text)
    → times c h.clients ≡ 0
    → times c h.closed ≡ 0
    → h'.clients ≡ add_client c h.clients
    → h'.closed ≡ h.closed
    → h'.buffers ≡ h.buffers
    → Heard d start h log got
    → Heard d (if d == c then log else start) h' (log ++ []) got
unfolding add_client
Heard-added c d start h h' log got absent usable clients closed buffers heard =
    elim (Bool-cases (d == c)) [
      | inl is ↦
          let none_got = heard.fresh (ground (arith, absent, is)) (ground (arith, usable, is)) in
          let nothing : h'.buffers d ≡ [] = ap (λ f. f d) buffers ∙ none_got.1 in
          rw is (record {
            served =
                λ p. ap (λ l. log ++ l) (sym (ap (λ l. l ++ h'.buffers d) none_got.0 ∙ nothing));
            left = λ p. absurd (ground (arith, usable, is, closed));
            fresh = λ p q. absurd (ground (arith, is, absent, p, ap (times d) clients));
          })
      | inr other ↦
          rw (other, append_nil log)
            (Heard-kept d start h h' log got
              (
                ap (λ f. f d) buffers,
                ap (times d) clients ∙ ground (arith, other, absent),
                ap (times d) closed,
              )
              heard)
    ]

module _ (d : ℕ) (start : List Text) (h : Hub) (log got : List Text) (steps : Steps new_hub h)
    (heard : Heard d start h log got) where
  Heard-broadcast :
      (payload : Text) (rest : List Text) (order : List ℕ)
      → ((c : ℕ) → times c order ≡ times c h.clients)
      → Steps new_hub (deliver_each payload order (record h { broadcast = rest }))
      → Heard d start
          (deliver_each payload order (record h { broadcast = rest }))
          (log ++ payload ∷ [])
          got
  Heard-broadcast payload rest order same later =
      let (reaches, keeps) = deliver_each-clients h payload rest order d steps same in
      elim (Bool-cases (ltb 0 (times d h.clients))) [
        | inl e ↦
            let present : 0 < times d h.clients = ground arith in
            elim (Bool-cases (ltb (length (h.buffers d)) 256)) [
              | inl f ↦
                  let (buffers, clients) = (reaches present).0 (ground arith) in
                  Heard-sent d start h _ log got payload present buffers clients
                    (omega (arith, (Steps-IsSound _ later).1 d, clients, present)) heard
              | inr f ↦
                  Heard-dropped d start h _ log got (payload ∷ []) present
                    ((reaches present).1 (ground arith)) heard
            ]
        | inr e ↦
            let absent : times d h.clients ≡ 0 = ground arith in
            Heard-missed d start h _ log got (payload ∷ []) absent (keeps absent) heard
      ]

  Heard-taken :
      (c : ℕ) (message : Text) (rest : List Text)
      → h.buffers c ≡ message ∷ rest
      → Heard d start
          (record h { buffers = λ x. if x == c then rest else h.buffers x })
          (log ++ [])
          (got ++ (if d == c then message ∷ [] else []))
  Heard-taken c message rest e = elim (Bool-cases (d == c)) [
    | inl is ↦
        let held : h.buffers d ≡ message ∷ rest = ap h.buffers (ground (arith, is)) ∙ e in
        let shift : got ++ h.buffers d ≡ (got ++ message ∷ []) ++ rest =
          ap (λ l. got ++ l) held ∙ sym (append_assoc got (message ∷ []) rest) in
        rw (is, append_nil log)
          (record {
            served =
                λ p. (let split = heard.served p in rw is (split ∙ ap (λ l. start ++ l) shift));
            left = λ p.
                (let (after, split) = heard.left p in
                  (after, rw is (split ∙ ap (λ l. start ++ (l ++ after)) shift)));
            fresh = λ p q. cc (sym held ∙ (heard.fresh p q).1);
          })
    | inr other ↦
        rw (other, append_nil log)
          (Heard-got_nil d start _ log got
            (Heard-kept d start h _ log got (rw other refl, refl, refl) heard))
  ]

  pub Step-Heard :
      (h' : Hub) (step : Step h h')
      → Steps new_hub h'
      → Heard d
          (joined d h h' step log start)
          h'
          (log ++ handled h h' step)
          (got ++ taken d h h' step)
  Step-Heard h' (call_register c _ _ _) later =
      Heard-quiet d start _ log got (Heard-kept d start h _ log got (refl, refl, refl) heard)
  Step-Heard h' (call_unregister c _ _) later =
      Heard-quiet d start _ log got (Heard-kept d start h _ log got (refl, refl, refl) heard)
  Step-Heard h' (call_broadcast payload _ _) later =
      Heard-quiet d start _ log got (Heard-kept d start h _ log got (refl, refl, refl) heard)
  Step-Heard h' (run_register c rest _ quit e) later =
      let waits : times c h.register ≡ suc (times c rest) = ap (times c) e ∙ ground arith in
      Heard-got_nil d _ _ _ got (
        Heard-added c d start h _ log got (omega (arith, (Steps-IsSound h steps).1 c, waits))
          (omega (arith, (Steps-IsSound h steps).1 c, waits)) refl refl refl heard)
  Step-Heard h' (run_unregister c rest _ quit e) later = Heard-got_nil d start _ _ got (
      Heard-remove c d start (record h { unregister = rest }) log got
        (Heard-kept d start h _ log got (refl, refl, refl) heard))
  Step-Heard h' (run_broadcast payload rest order _ quit e same) later =
      Heard-got_nil d start _ _ got (Heard-broadcast payload rest order same later)
  Step-Heard h' (run_done order _ quit same) later = Heard-got_nil d start _ _ got (
      Heard-part d start h _ log got []
        (
          λ present.
              drop_each-IsDropped order d h
                (omega (arith, same d, present, (Steps-IsSound h steps).1 d)),
          λ absent. drop_each-IsKept order d h (same d ∙ absent),
        )
        heard)
  Step-Heard h' (receive c message rest _ e) later = Heard-taken c message rest e
