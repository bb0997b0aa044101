-- ===== src/Hub/Client/Ends.antt =====
-- The writer of a client ends after its channel was closed.
use echo_backend.Base.{
  ◌+◌, ◌<◌, ◌≡◌, refl, sym, subst, Bool-cases, inl, inr, Bool, true, false, List, [], ◌∷◌, count,
  length, if◌then◌else◌, arith,
}
use echo_backend.Text.{Text}
use echo_backend.Errors.{Error, Result, ok, err}
use echo_backend.Effect.{Ensures}
use echo_backend.Effect.Rules.{bind, returned, attempted, branch}
use echo_backend.Hub.Client.Fifo.{write_pump_stopped}
use echo_backend.Hub.Client.{
  Frame, text_message, ping_message, close_message, Conn, Pump, Choice, receives, ticks,
  write_in_time, receive_turn, write_turn, write_pump,
}

abbrev Never : {W : Type 0} → Error → W → Type 0
Never _ _ = ⊥

abbrev pub is_receipt : Choice → Bool
is_receipt receives = true
is_receipt ticks = false

module _ {W : Type 0} (conn : Conn W) where
  any_outcome : (x : Result (Unit {0}) × W) → Ensures (λ _ _. Unit {0}) (λ _ _. Unit {0}) x
  unfolding Ensures
  any_outcome (ok _, w) = tt
  any_outcome (err _, w) = tt

  write_in_time_total :
      (f : Frame) (w : W) → Ensures (λ _ _. Unit {0}) Never (write_in_time conn f w)
  unfolding write_in_time
  write_in_time_total f w =
      bind _ _ (λ _ _. Unit {0}) _ _ w (returned _ _ _ _ tt)
        λ start w₁ _.
          bind _ _ (λ _ _. Unit {0}) _ _ w₁ (returned _ _ _ _ tt)
            λ _ w₂ _.
              bind _ _ (λ _ _. Unit {0}) _ _ w₂
                (attempted _ _ _ w₂ (any_outcome (conn.write_message f w₂)))
                λ r w₃ _. returned _ _ _ _ tt

  -- A round on a closed channel: it stays closed, and a receipt takes a message or ends the loop.
  abbrev Shrinks : Pump → Choice → Pump → Type 0
  Shrinks p choice p' =
      (p'.closed ≡ true)
      × (p'.running ≡ true
          → length p'.buffer + (if is_receipt choice then 1 else 0) ≡ length p.buffer)

  receive_turn_lem :
      (p : Pump) (buffer : List Text) (closed : Bool) (w : W)
      → p.closed ≡ true
      → p.buffer ≡ buffer
      → closed ≡ true
      → Ensures (λ p' _. Shrinks p receives p') Never (receive_turn conn p buffer closed w)
  unfolding receive_turn
  receive_turn_lem p (message ∷ rest) closed w h e f =
      bind _ _ _ _ _ w (write_in_time_total (text_message message) w)
        λ written w₁ _. returned _ _ _ _ (h, λ _. rw e (omega arith))
  receive_turn_lem p [] true w h e f =
      bind _ _ _ _ _ w (write_in_time_total close_message w)
        λ written w₁ _. returned _ _ _ _ (h, λ running. cc)
  receive_turn_lem p [] false w h e f = cc

  write_turn_lem :
      (choice : Choice) (p : Pump) (w : W)
      → p.closed ≡ true
      → Ensures (λ p' _. Shrinks p choice p') Never (write_turn conn choice p w)
  unfolding write_turn
  write_turn_lem receives p w closed = receive_turn_lem p p.buffer p.closed w closed refl closed
  write_turn_lem ticks p w closed =
      bind _ _ _ _ _ w (write_in_time_total ping_message w)
        λ written w₁ _. returned _ _ _ _ (closed, λ _. omega arith)

  fewer :
      (choice : Choice) (choices : List Choice) (p p₁ : Pump)
      → length p.buffer < count is_receipt (choice ∷ choices)
      → length p₁.buffer + (if is_receipt choice then 1 else 0) ≡ length p.buffer
      → length p₁.buffer < count is_receipt choices
  fewer receives choices p p₁ h e = omega arith
  fewer ticks choices p p₁ h e = omega arith

  -- Once the channel is closed, the loop ends after at most one receipt more than the channel holds
  -- messages, whatever the writes and the ticker do.
  pub write_pump-Ends :
      (choices : List Choice) (p : Pump) (w : W)
      → p.closed ≡ true
      → length p.buffer < count is_receipt choices
      → Ensures (λ p' _. p'.running ≡ false) Never (write_pump conn choices p w)
  unfolding write_pump
  write_pump-Ends [] p w closed enough = absurd (omega arith)
  write_pump-Ends (choice ∷ choices) p w closed enough =
      branch _ _ p.running _ _ w
        (λ _. bind _ _ _ _ _ w (write_turn_lem choice p w closed) λ p₁ w₁ h.
          elim (Bool-cases p₁.running) [
            | inl runs ↦
                write_pump-Ends choices p₁ w₁ h.0 (fewer choice choices p p₁ enough (h.1 runs))
            | inr stops ↦
                subst (Ensures (λ p' _. p'.running ≡ false) Never)
                  (sym (write_pump_stopped conn choices p₁ w₁ stops)) (returned _ _ _ _ stops)
          ])
        (λ stopped. returned _ _ _ _ stopped)
