-- ===== src/Tests/Clients.antt =====
-- A client's writer on a connection that keeps its frames and refuses one text.
use echo_backend.Base.{◌≡◌, refl, Bool, true, false, List, [], ◌∷◌, ◌++◌, if◌then◌else◌, arith}
use echo_backend.Text.{codes, text_eq}
use echo_backend.Errors.{Error, failure, Result, ok, err}
use echo_backend.Effect.{Ensures, pure, ◌>>=◌, attempt}
use echo_backend.Hub.Client.{
  Frame, text_message, ping_message, close_message, Conn, Pump, Choice, receives, ticks, write_pump,
}
use echo_backend.Hub.Client.Fifo.{IsConn, IsFifo, write_pump-IsFifo}
use echo_backend.Hub.Client.Ends.{write_pump-Ends}

abbrev write_frame : Frame → List Frame → Result (Unit {0}) × List Frame
write_frame (text_message t) w =
    if text_eq t (codes "bad")
    then (err (failure (codes "broken pipe")), w)
    else (ok tt, w ++ text_message t ∷ [])
write_frame ping_message w = (ok tt, w ++ ping_message ∷ [])
write_frame close_message w = (ok tt, w ++ close_message ∷ [])

abbrev conn : Conn (List Frame)
conn = record {
  now = λ w. (0, w);
  set_read_limit = λ _ w. w;
  set_read_deadline = λ _ w. w;
  set_write_deadline = λ _ w. w;
  set_pong_handler = λ _ w. w;
  read_message = pure tt;
  write_message = write_frame;
}

write_frame_lem :
    (f : Frame) (w : List Frame)
    → Ensures (λ _ w'. w' ≡ w ++ f ∷ []) (λ _ w'. w' ≡ w) (write_frame f w)
unfolding Ensures
write_frame_lem (text_message t) w = go (text_eq t (codes "bad"))
  where
    go :
        (b : Bool)
        → Ensures
            (λ _ w'. w' ≡ w ++ text_message t ∷ [])
            (λ _ w'. w' ≡ w)
            (if b
              then (err (failure (codes "broken pipe")), w)
              else (ok tt, w ++ text_message t ∷ []))
    go true = refl
    go false = refl
write_frame_lem ping_message w = refl
write_frame_lem close_message w = refl

conn-IsConn : IsConn (List Frame) conn (λ w. w)
conn-IsConn = record {
  now_lem = λ w. refl;
  set_write_deadline_lem = λ t w. refl;
  write_message_lem = write_frame_lem;
}

abbrev closing : Pump
closing = record { buffer = codes "a" ∷ codes "b" ∷ []; closed = true; running = true }

abbrev turns : List Choice
turns = receives ∷ ticks ∷ receives ∷ receives ∷ []

abbrev Nothing : {W : Type 0} → Error → W → Type 0
Nothing _ _ = ⊥

write_pump-IsFifo_example :
    Ensures (IsFifo conn (λ w. w) conn-IsConn closing []) Nothing (write_pump conn turns closing [])
write_pump-IsFifo_example = write_pump-IsFifo conn (λ w. w) conn-IsConn turns closing []

write_pump-Ends_example :
    Ensures (λ p' _. p'.running ≡ false) Nothing (write_pump conn turns closing [])
write_pump-Ends_example = write_pump-Ends conn turns closing [] refl (omega arith)

-- All that was buffered is sent, then the close.
all_sent :
    (write_pump conn turns closing []).1
    ≡ text_message (codes "a") ∷ ping_message ∷ text_message (codes "b") ∷ close_message ∷ []
unfolding write_pump text_eq ◌>>=◌ attempt
all_sent = refl

-- A text whose write fails is lost, and the loop ends.
one_lost :
    write_pump conn turns
      (record { buffer = codes "bad" ∷ codes "b" ∷ []; closed = false; running = true })
      []
    ≡ (ok (record { buffer = codes "b" ∷ []; closed = false; running = false }), [])
unfolding write_pump text_eq ◌>>=◌ attempt
one_lost = refl
