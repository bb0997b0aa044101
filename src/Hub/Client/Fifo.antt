-- ===== src/Hub/Client/Fifo.antt =====
-- What the writer of a client sends, and that it ends.
use echo_backend.Base.{
  append_nil, append_assoc, ℕ, ◌+◌, ◌≡◌, ◌∙◌, refl, sym, ap, subst, Bool-cases, inl, inr, Bool,
  true, false, List, [], ◌∷◌, ◌++◌, if◌then◌else◌,
}
use echo_backend.Text.{Text}
use echo_backend.Errors.{Error, Result, ok}
use echo_backend.Effect.{Ensures}
use echo_backend.Effect.Rules.{bind, returned, attempted, branch, Ensures-mono}
use echo_backend.Hub.Client.{
  Frame, text_message, ping_message, close_message, Conn, Pump, Choice, receives, ticks, succeeded,
  write_wait, write_in_time, receive_turn, write_turn, write_pump,
}

abbrev texts : List Frame → List Text
texts [] = []
texts (text_message t ∷ fs) = t ∷ texts fs
texts (ping_message ∷ fs) = texts fs
texts (close_message ∷ fs) = texts fs

texts-append : (fs gs : List Frame) → texts (fs ++ gs) ≡ texts fs ++ texts gs
texts-append [] gs = refl
texts-append (text_message t ∷ fs) gs = ap (λ l. t ∷ l) (texts-append fs gs)
texts-append (ping_message ∷ fs) gs = texts-append fs gs
texts-append (close_message ∷ fs) gs = texts-append fs gs

-- The connection, where `frames` tells what was written to it as a whole.
pub record IsConn (W : Type 0) (conn : Conn W) (frames : W → List Frame) : Type 0 where
  pub now_lem : (w : W) → frames (conn.now w).1 ≡ frames w
  pub set_write_deadline_lem : (t : ℕ) (w : W) → frames (conn.set_write_deadline t w) ≡ frames w
  pub write_message_lem :
      (f : Frame) (w : W)
      → Ensures
          (λ _ w'. frames w' ≡ frames w ++ f ∷ [])
          (λ _ w'. frames w' ≡ frames w)
          (conn.write_message f w)

abbrev Never : {W : Type 0} → Error → W → Type 0
Never _ _ = ⊥

texts-if :
    (b : Bool) (f : Frame) → texts (if b then f ∷ [] else []) ≡ (if b then texts (f ∷ []) else [])
texts-if true f = refl
texts-if false f = refl

no_text : (l : List Text) (b : Bool) → l ++ (if b then [] else []) ≡ l
no_text l true = append_nil l
no_text l false = append_nil l

pub write_pump_stopped :
    {W : Type 0} (conn : Conn W) (choices : List Choice) (p : Pump) (w : W)
    → p.running ≡ false
    → write_pump conn choices p w ≡ (ok p, w)
unfolding write_pump
write_pump_stopped conn [] p w h = refl
write_pump_stopped conn (choice ∷ choices) p w h = rw h

module _ {W : Type 0} (conn : Conn W) (frames : W → List Frame) (c : IsConn W conn frames) where
  abbrev sent : W → List Text
  sent w = texts (frames w)

  -- What the connection was sent and what was not, next to the buffer that was to be sent.
  unfoldable pub IsFifo : Pump → W → Pump → W → Type 0
  IsFifo p w p' w' =
      (rest : List Text) × (sent w' ++ rest ≡ sent w ++ p.buffer)
      × (p'.running ≡ true → rest ≡ p'.buffer)

  write_in_time_lem :
      (f : Frame) (w : W)
      → Ensures
          (λ written w'. sent w' ≡ sent w ++ (if written then texts (f ∷ []) else []))
          Never
          (write_in_time conn f w)
  unfolding write_in_time
  write_in_time_lem f w =
      bind _ _ (λ _ w₁. frames w₁ ≡ frames w) _ _ w (returned _ _ _ _ (c.now_lem w))
        λ start w₁ same₁.
          bind _ _ (λ _ w₂. frames w₂ ≡ frames w) _ _ w₁
            (returned _ _ _ _ (c.set_write_deadline_lem (start + write_wait) w₁ ∙ same₁))
            λ _ w₂ same₂.
              bind _ _ (λ r w₃. frames w₃ ≡ frames w ++ (if succeeded r then f ∷ [] else [])) _ _ w₂
                (attempted _ _ _ w₂ (
                  Ensures-mono _ _ _ _ _ (c.write_message_lem f w₂)
                    (λ _ w₃ q. q ∙ ap (λ l. l ++ f ∷ []) same₂)
                    (λ e w₃ q. q ∙ same₂ ∙ sym (append_nil _))))
                λ r w₃ q. returned _ _ _ _ (
                  ap texts q
                  ∙ texts-append (frames w) _
                  ∙ ap (λ l. sent w ++ l) (texts-if (succeeded r) f))

  after_message :
      (p : Pump) (message : Text) (rest : List Text) (closed written : Bool) (w w₁ : W)
      → p.buffer ≡ message ∷ rest
      → sent w₁ ≡ sent w ++ (if written then message ∷ [] else [])
      → IsFifo p w (record p { buffer = rest; running = written }) w₁
  unfolding IsFifo
  after_message p message rest closed true w w₁ e q = (
    rest,
    ap (λ l. l ++ rest) q ∙ append_assoc (sent w) _ rest ∙ ap (λ l. sent w ++ l) (sym e),
    λ _. refl,
  )
  after_message p message rest closed false w w₁ e q =
      (p.buffer, ap (λ l. l ++ p.buffer) (q ∙ append_nil (sent w)), λ running. cc)

  receive_turn_lem :
      (p : Pump) (buffer : List Text) (closed : Bool) (w : W)
      → p.buffer ≡ buffer
      → Ensures (IsFifo p w) Never (receive_turn conn p buffer closed w)
  unfolding receive_turn IsFifo
  receive_turn_lem p (message ∷ rest) closed w e =
      bind _ _ _ _ _ w (write_in_time_lem (text_message message) w)
        λ written w₁ q. returned _ _ _ _ (after_message p message rest closed written w w₁ e q)
  receive_turn_lem p [] true w e =
      bind _ _ _ _ _ w (write_in_time_lem close_message w) λ written w₁ q.
        returned _ _ _ _
          (p.buffer, ap (λ l. l ++ p.buffer) (q ∙ no_text (sent w) written), λ running. cc)
  receive_turn_lem p [] false w e = returned _ _ _ _ (p.buffer, refl, λ _. refl)

  write_turn_lem :
      (choice : Choice) (p : Pump) (w : W) → Ensures (IsFifo p w) Never (write_turn conn choice p w)
  unfolding write_turn IsFifo
  write_turn_lem receives p w = receive_turn_lem p p.buffer p.closed w refl
  write_turn_lem ticks p w = bind _ _ _ _ _ w (write_in_time_lem ping_message w) λ written w₁ q.
      returned _ _ _ _ (p.buffer, ap (λ l. l ++ p.buffer) (q ∙ no_text (sent w) written), λ _. refl)

  continued :
      (p p₁ : Pump) (w w₁ : W) (x : Result Pump × W)
      → IsFifo p w p₁ w₁
      → Ensures (IsFifo p₁ w₁) Never x
      → (p₁.running ≡ false → x ≡ (ok p₁, w₁))
      → Ensures (IsFifo p w) Never x
  unfolding IsFifo
  continued p p₁ w w₁ x (rest, split, whole) later stopped = elim (Bool-cases p₁.running) [
    | inl runs ↦
        Ensures-mono _ _ _ _ x later
          (λ p₂ w₂ (rest₂, split₂, whole₂).
            (rest₂, split₂ ∙ ap (λ l. sent w₁ ++ l) (sym (whole runs)) ∙ split, whole₂))
          (λ e w₂ q. q)
    | inr stops ↦
        subst (Ensures (IsFifo p w) Never) (sym (stopped stops))
          (returned _ _ _ _ (rest, split, whole))
  ]

  -- Where a write that fails sends no whole frame: whatever `select` chooses and whichever writes
  -- fail, the texts that the connection was sent are a prefix of what the channel held, in its
  -- order; and as long as the loop runs, only what is still in the channel is missing.
  pub write_pump-IsFifo :
      (choices : List Choice) (p : Pump) (w : W)
      → Ensures (IsFifo p w) Never (write_pump conn choices p w)
  unfolding write_pump IsFifo
  write_pump-IsFifo [] p w = returned _ _ _ _ (p.buffer, refl, λ _. refl)
  write_pump-IsFifo (choice ∷ choices) p w =
      branch _ _ p.running _ _ w
        (λ _. bind _ _ (IsFifo p w) _ _ w (write_turn_lem choice p w) λ p₁ w₁ h.
          continued p p₁ w w₁ _ h (write_pump-IsFifo choices p₁ w₁)
            (write_pump_stopped conn choices p₁ w₁))
        (λ _. returned _ _ _ _ (p.buffer, refl, λ _. refl))
