-- ===== src/Router/Shared/Reads.antt =====
-- The shared middleware leaves every row alone.
use echo_backend.Base.{◌≡◌, refl, not, Option, none, some, List, []}
use echo_backend.Text.{Text}
use echo_backend.Crypto.{Crypto}
use echo_backend.System.{System, IsSystem}
use echo_backend.SortedSets.{SortedSets, Command}
use echo_backend.Config.{Config, is_production}
use echo_backend.Middleware.Gin.{Context, Verdict, next, abort}
use echo_backend.Middleware.Headers.{Headers, no_ip}
use echo_backend.Middleware.RateLimit.Reads.{IsLet, general-IsLet}
use echo_backend.Router.Shared.{
  Request, rate_limits, after_limit, after_security, after_no_ip, shared,
}

module _ {W V : Type 0} (sys : System W) (store : SortedSets W) (crypto : Crypto W) (cfg : Config)
    (view : W → V) (s : IsSystem view sys)
    (exec_reads : (cs : List Command) (w : W) → view (store.exec cs w).1 ≡ view w) (r : Request)
    (w : W) where
  after_limit_reads :
      (headers : Headers) (c : Context) (x : (Verdict × Headers) × W)
      → IsLet sys store crypto view s exec_reads c w x
      → view (after_limit sys store crypto cfg r headers x).1 ≡ view w
  unfolding after_limit
  after_limit_reads headers c ((next c', response), w₁) (kept, same) = same
  after_limit_reads headers c ((abort _ _ _, response), w₁) same = same

  after_security_reads :
      (headers : Headers) (c : Context) (x : Headers × Option Text)
      → view (after_security sys store crypto cfg r headers c x w).1 ≡ view w
  unfolding after_security
  after_security_reads headers c (response, some target) = refl
  after_security_reads headers c (response, none) =
      after_limit_reads headers c _
        (general-IsLet sys store crypto view s exec_reads (rate_limits cfg) _ _ c w)

  after_no_ip_reads :
      (x : Option (Headers × Context)) → view (after_no_ip sys store crypto cfg r x w).1 ≡ view w
  unfolding after_no_ip
  after_no_ip_reads none = refl
  after_no_ip_reads (some (headers, c)) = after_security_reads headers c _

  pub shared_reads : view (shared sys store crypto cfg r w).1 ≡ view w
  unfolding shared
  shared_reads = after_no_ip_reads (no_ip (not (is_production cfg)) r.headers [])
