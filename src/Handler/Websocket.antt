-- ===== src/Handler/Websocket.antt =====
-- internal/handler/ws.go: a request that becomes a connection of the hub. The upgrade of
-- gorilla/websocket is a parameter, and so are what `Register` of the hub and the start of a
-- goroutine do to the world: the steps of the hub and the loops are modelled on their own.
use echo_backend.Errors.{invalid_input, sentinel, Result, ok, err}
use echo_backend.Effect.{M}
use echo_backend.Hub.Client.{Client, new_client, start}
use echo_backend.Handler.Errors.{Response, success, write_domain_error}

module _ {W C : Type 0} (upgrade : M W C) (register go_write go_read : Client C → W → W) where
  -- What follows the upgrade. The answer 101 is that of the upgrade itself.
  unfoldable pub upgraded : Result C × W → Response (Unit {0}) × W
  unfolding write_domain_error new_client start
  upgraded (err e, w) = (write_domain_error (sentinel invalid_input), w)
  upgraded (ok conn, w) =
      let client = new_client conn in
      (success 101 tt, start go_write go_read client (register client w))

  unfoldable pub feed : W → Response (Unit {0}) × W
  unfolding upgraded
  feed w = upgraded (upgrade w)
