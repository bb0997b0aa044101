-- ===== src/Hub/Client.antt =====
-- internal/hub/client.go: the two loops of a client, over the connection of gorilla/websocket as a
-- record of operations on the unknown world. Durations are in nanoseconds.
pub mod Fifo
pub mod Ends
use echo_backend.Base.{
  ℕ, zero, suc, ◌+◌, ◌*◌, ◌/◌, ◌^◌, ◌≡◌, Bool, true, false, List, [], ◌∷◌, ◌++◌, if◌then◌else◌,
}
use echo_backend.Text.{Text}
use echo_backend.Errors.{Result, ok, err}
use echo_backend.Effect.{M, pure, ◌>>=◌, ◌>>◌, attempt, Ensures, total}

abbrev pub second : ℕ
second = 10 ^ 9

abbrev pub write_wait : ℕ
write_wait = 10 * second

abbrev pub pong_wait : ℕ
pong_wait = 60 * second

abbrev pub ping_period : ℕ
ping_period = (pong_wait * 9) / 10

abbrev pub max_message_size : ℕ
max_message_size = 512

pub data Frame : Type 0 where
  text_message : Text → Frame
  ping_message close_message : Frame

pub record Conn (W : Type 0) : Type 0 where
  pub now : W → ℕ × W
  pub set_read_limit : ℕ → W → W
  -- The errors of these two are not looked at.
  pub set_read_deadline : ℕ → W → W
  pub set_write_deadline : ℕ → W → W
  -- The duration by which each pong sets the read deadline anew.
  pub set_pong_handler : ℕ → W → W
  pub read_message : M W (Unit {0})
  pub write_message : Frame → M W (Unit {0})

-- The channel `send`, and whether the loop still runs.
pub record Pump : Type 0 where
  pub buffer : List Text
  pub closed : Bool
  pub running : Bool

-- A client: its connection and its channel, which has room for 256 messages.
pub record Client (C : Type 0) : Type 0 where
  pub conn : C
  pub send : Pump

unfoldable pub new_client : {C : Type 0} → C → Client C
new_client conn = record {
  conn = conn;
  send = record { buffer = []; closed = false; running = true };
}

-- `go c.writePump()` and `go c.readPump()`: how a goroutine starts is given.
unfoldable pub start : {W C : Type 0} (go_write go_read : Client C → W → W) → Client C → W → W
start go_write go_read client w = go_read client (go_write client w)

-- What `select` takes: the channel or the ticker.
pub data Choice : Type 0 where
  receives ticks : Choice

abbrev pub succeeded : Result (Unit {0}) → Bool
succeeded (ok _) = true
succeeded (err _) = false

module _ {W : Type 0} (conn : Conn W) where
  unfoldable pub write_in_time : Frame → M W Bool
  write_in_time frame = do
    start ← total conn.now
    _ ← total (λ w. (tt, conn.set_write_deadline (start + write_wait) w))
    result ← attempt (conn.write_message frame)
    pure (succeeded result)

  -- `case message, ok := <-c.send`. A receipt from an open channel without a message waits.
  unfoldable pub receive_turn : Pump → List Text → Bool → M W Pump
  unfolding write_in_time
  receive_turn p (message ∷ rest) closed = do
    written ← write_in_time (text_message message)
    pure (record p { buffer = rest; running = written })
  receive_turn p [] true = do _ ← write_in_time close_message; pure (record p { running = false })
  receive_turn p [] false = pure p

  -- One round of the loop of `writePump`.
  unfoldable pub write_turn : Choice → Pump → M W Pump
  unfolding receive_turn
  write_turn receives p = receive_turn p p.buffer p.closed
  write_turn ticks p = do
    written ← write_in_time ping_message
    pure (record p { running = written })

  -- The loop, for the choices that `select` makes.
  unfoldable pub write_pump : List Choice → Pump → M W Pump
  unfolding write_turn
  write_pump [] p = pure p
  write_pump (choice ∷ choices) p =
      if p.running then write_turn choice p >>= (λ p'. write_pump choices p') else pure p

  -- The loop of `readPump`, for at most so many messages: whether it has left.
  unfoldable pub read_each : ℕ → M W Bool
  read_each zero = pure false
  read_each (suc n) = do
    result ← attempt conn.read_message
    if succeeded result then read_each n else pure true

  unfoldable pub read_pump : (W → W) → ℕ → M W Bool
  unfolding read_each
  read_pump unregister n = do
    _ ← total (λ w. (tt, conn.set_read_limit max_message_size w))
    start ← total conn.now
    _ ← total (λ w. (tt, conn.set_read_deadline (start + pong_wait) w))
    _ ← total (λ w. (tt, conn.set_pong_handler pong_wait w))
    left ← read_each n
    total (λ w. (left, if left then unregister w else w))
