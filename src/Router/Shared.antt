-- ===== src/Router/Shared.antt =====
-- cmd/server/main.go: the middleware that every request passes, in the order of `router.Use`, and
-- its settings. What `gin.Recovery` does with a panic of a handler is left out; a panic of `NoIP`,
-- which is before it, is an answer of its own. `Logger` acts after the handlers.
pub mod Guarded
pub mod Reads
use echo_backend.Base.{
  ℕ, zero, suc, ◌+◌, Bool, not, Option, none, some, List, [], if◌then◌else◌, ◌/◌,
}
use echo_backend.Base.Int.{ℤ, pos, negsuc, ltb_ℤ}
use echo_backend.Text.{Text, codes}
use echo_backend.Crypto.{Crypto}
use echo_backend.System.{System}
use echo_backend.SortedSets.{SortedSets}
use echo_backend.Config.{Config, is_production}
use echo_backend.Middleware.Gin.{Context, Verdict, next, abort}
use echo_backend.Middleware.Headers.{Headers, header, no_ip, new_cors, cors_handler}
use echo_backend.Middleware.Security.{security, join_host_port}
use echo_backend.Middleware.Tor.{tor}
use echo_backend.Middleware.RateLimit.{RateLimit, new_rate_limit, general}

pub record Request : Type 0 where
  pub method : Text
  pub request_uri : Text
  -- The text of the `url.URL` with the scheme `https`, this host, and the path and query of the
  -- request.
  pub redirect_target : Text → Text
  pub headers : Headers

pub data Answer : Type 0 where
  crashed : Answer
  redirected : Text → Headers → Answer
  limited : ℕ → Text → Text → Headers → Answer
  preflight : Headers → Answer
  -- The headers and the values that the handlers find, and the response headers so far.
  handled : Headers → Context → Headers → Answer

abbrev pub negated : ℕ → ℤ
negated zero = pos 0
negated (suc n) = negsuc n

-- `x / 6` rounds towards zero.
abbrev pub sixth : ℤ → ℤ
sixth (pos n) = pos (n / 6)
sixth (negsuc n) = negated ((n + 1) / 6)

unfoldable pub post_create_limit : ℤ → ℤ
post_create_limit requests = if ltb_ℤ (sixth requests) (pos 1) then pos 1 else sixth requests

unfoldable pub rate_limits : Config → RateLimit
unfolding post_create_limit new_rate_limit
rate_limits cfg =
    new_rate_limit cfg.server.rate_limit_requests cfg.server.rate_limit_window
      (post_create_limit cfg.server.rate_limit_requests) cfg.server.rate_limit_window

abbrev pub after_cors : Headers → Context → Headers × Bool → Answer
after_cors headers c (response, ended) =
    if ended then preflight response else handled headers c response

module _ {W : Type 0} (sys : System W) (store : SortedSets W) (crypto : Crypto W)
    (cfg : Config) where
  unfoldable pub after_limit : Request → Headers → (Verdict × Headers) × W → Answer × W
  after_limit r headers ((abort status error code, response), w) =
      (limited status error code response, w)
  after_limit r headers ((next c, response), w) = (
    after_cors headers c (
        cors_handler (new_cors cfg.cors.allowed_origins) (header headers (codes "Origin")) r.method
          response),
    w,
  )

  unfoldable pub after_security :
      Request → Headers → Context → Headers × Option Text → W → Answer × W
  unfolding after_limit rate_limits
  after_security r headers c (response, some target) w = (redirected target response, w)
  after_security r headers c (response, none) w = after_limit r headers (
      general sys store crypto (rate_limits cfg) (header headers (codes "Authorization"))
        (tor cfg.onion_address r.request_uri response) c w)

  unfoldable pub after_no_ip : Request → Option (Headers × Context) → W → Answer × W
  unfolding after_security
  after_no_ip r none w = (crashed, w)
  after_no_ip r (some (headers, c)) w =
      after_security r headers c
        (security (is_production cfg) (header headers (codes "X-Forwarded-Proto"))
          (r.redirect_target (join_host_port cfg.server.host cfg.server.port)) [])
        w

  -- What becomes of a request before its route.
  unfoldable pub shared : Request → W → Answer × W
  unfolding after_no_ip
  shared r = after_no_ip r (no_ip (not (is_production cfg)) r.headers [])
