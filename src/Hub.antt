-- ===== src/Hub.antt =====
-- internal/hub/hub.go: the loop of `Run` over four channels, and the calls that fill them, as steps
-- of one state. A client is a number; its `send` channel is a buffer and whether it was closed. A
-- close of a closed channel and a send on one panic. Connections are not modelled.
pub mod Client
pub mod Panics
pub mod Delivery
pub mod Order
use echo_backend.Base.{
  ℕ, ◌+◌, ◌<◌, ◌≡◌, Bool, true, false, ◌||◌, List, [], ◌∷◌, ◌++◌, ◌==◌, ltb, length, count,
  if◌then◌else◌,
}
use echo_backend.Text.{Text}

-- How often a client is in a list.
abbrev pub times : ℕ → List ℕ → ℕ
times c xs = count (λ x. x == c) xs

pub record Hub : Type 0 where
  pub clients : List ℕ
  pub broadcast : List Text
  pub register : List ℕ
  pub unregister : List ℕ
  pub quit : Bool
  -- The buffer of each client's `send`.
  pub buffers : ℕ → List Text
  -- The clients whose `send` is closed, and those that were ever given to `Register`.
  pub closed : List ℕ
  pub known : List ℕ
  pub panicked : Bool

abbrev pub new_hub : Hub
new_hub = record {
  clients = [];
  broadcast = [];
  register = [];
  unregister = [];
  quit = false;
  buffers = λ _. [];
  closed = [];
  known = [];
  panicked = false;
}

-- `delete(h.clients, c)`
unfoldable pub without : ℕ → List ℕ → List ℕ
without c [] = []
without c (x ∷ xs) = let rest = without c xs in if x == c then rest else x ∷ rest

-- `h.clients[c] = struct{}{}`
unfoldable pub add_client : ℕ → List ℕ → List ℕ
add_client c xs = if ltb 0 (times c xs) then xs else c ∷ xs

-- `delete(h.clients, c); close(c.send)`
unfoldable pub drop_client : ℕ → Hub → Hub
unfolding without
drop_client c h = record h {
  clients = without c h.clients;
  closed = c ∷ h.closed;
  panicked = h.panicked || ltb 0 (times c h.closed);
}

unfoldable pub remove : ℕ → Hub → Hub
unfolding drop_client
remove c h = if ltb 0 (times c h.clients) then drop_client c h else h

-- `c.send <- payload`
unfoldable pub send : Text → ℕ → Hub → Hub
send payload c h = record h {
  buffers = λ d. if d == c then h.buffers d ++ payload ∷ [] else h.buffers d;
  panicked = h.panicked || ltb 0 (times c h.closed);
}

-- The body of the loop over the clients: a client whose buffer of 256 is full is removed. A send on
-- a closed channel panics, full or not.
unfoldable pub deliver : Text → ℕ → Hub → Hub
unfolding send remove
deliver payload c h =
    if ltb (length (h.buffers c)) 256 || ltb 0 (times c h.closed)
    then send payload c h
    else remove c h

unfoldable pub deliver_each : Text → List ℕ → Hub → Hub
unfolding deliver
deliver_each payload [] h = h
deliver_each payload (c ∷ cs) h = deliver_each payload cs (deliver payload c h)

-- The loop after `ctx.Done()`.
unfoldable pub drop_each : List ℕ → Hub → Hub
drop_each [] h = h
drop_each (c ∷ cs) h = drop_each cs (drop_client c h)

-- A step of `Run`, of a goroutine that calls the hub, or of a client's writer. Once `quit` is
-- closed, `Run` has returned; a call may then still fill a channel that nobody reads. A map is
-- ranged over in any order.
pub data Step : Hub → Hub → Type 0 where
  -- Each connection makes one client, and registers it once.
  call_register :
      (c : ℕ) (h : Hub)
      → times c h.known ≡ 0
      → length h.register < 64
      → Step h (record h { register = h.register ++ c ∷ []; known = c ∷ h.known })
  call_unregister :
      (c : ℕ) (h : Hub)
      → length h.unregister < 64
      → Step h (record h { unregister = h.unregister ++ c ∷ [] })
  call_broadcast :
      (payload : Text) (h : Hub)
      → length h.broadcast < 256
      → Step h (record h { broadcast = h.broadcast ++ payload ∷ [] })
  run_register :
      (c : ℕ) (rest : List ℕ) (h : Hub)
      → h.quit ≡ false
      → h.register ≡ c ∷ rest
      → Step h (record h { register = rest; clients = add_client c h.clients })
  run_unregister :
      (c : ℕ) (rest : List ℕ) (h : Hub)
      → h.quit ≡ false
      → h.unregister ≡ c ∷ rest
      → Step h (remove c (record h { unregister = rest }))
  run_broadcast :
      (payload : Text) (rest : List Text) (order : List ℕ) (h : Hub)
      → h.quit ≡ false
      → h.broadcast ≡ payload ∷ rest
      → ((d : ℕ) → times d order ≡ times d h.clients)
      → Step h (deliver_each payload order (record h { broadcast = rest }))
  run_done :
      (order : List ℕ) (h : Hub)
      → h.quit ≡ false
      → ((d : ℕ) → times d order ≡ times d h.clients)
      → Step h (record (drop_each order h) { quit = true })
  -- `<-c.send`
  receive :
      (c : ℕ) (message : Text) (rest : List Text) (h : Hub)
      → h.buffers c ≡ message ∷ rest
      → Step h (record h { buffers = λ d. if d == c then rest else h.buffers d })

pub data Steps : Hub → Hub → Type 0 where
  here : (h : Hub) → Steps h h
  further : (h h' h'' : Hub) → Steps h h' → Step h' h'' → Steps h h''
