-- ===== src/Router/Server/Blind.antt =====
-- The server does not see where a request comes from.
use echo_backend.Base.{◌≡◌, ◌∙◌, refl, ap, true, not, Option, none, some, []}
use echo_backend.Text.{Text}
use echo_backend.Crypto.{Crypto}
use echo_backend.System.{System}
use echo_backend.SortedSets.{SortedSets}
use echo_backend.Config.{Config, is_production}
use echo_backend.Middleware.Gin.{Context, Verdict, next, abort}
use echo_backend.Middleware.Headers.{
  Headers, put, del, strip, strip_header_names, ip_headers, has_text,
}
use echo_backend.Middleware.Headers.Blind.{strip-put, strip-del, no_ip-strip_only}
use echo_backend.Router.Shared.{Request, after_limit, after_security, after_no_ip, shared}
use echo_backend.Router.Routes.{Route}
use echo_backend.Router.Server.{Server, serve, after_shared}

module _ {W : Type 0} (sys : System W) (store : SortedSets W) (crypto : Crypto W) (cfg : Config)
    (r : Request) (h : Headers) where
  abbrev resent : Request
  resent = record r { headers = h }

  after_limit-resent :
      (headers : Headers) (x : (Verdict × Headers) × W)
      → after_limit sys store crypto cfg resent headers x
        ≡ after_limit sys store crypto cfg r headers x
  unfolding after_limit
  after_limit-resent headers ((next c, response), w) = refl
  after_limit-resent headers ((abort _ _ _, response), w) = refl

  after_security-resent :
      (headers : Headers) (c : Context) (x : Headers × Option Text) (w : W)
      → after_security sys store crypto cfg resent headers c x w
        ≡ after_security sys store crypto cfg r headers c x w
  unfolding after_security
  after_security-resent headers c (response, some target) w = refl
  after_security-resent headers c (response, none) w = after_limit-resent headers _

  after_no_ip-resent :
      (x : Option (Headers × Context)) (w : W)
      → after_no_ip sys store crypto cfg resent x w ≡ after_no_ip sys store crypto cfg r x w
  unfolding after_no_ip
  after_no_ip-resent none w = refl
  after_no_ip-resent (some (headers, c)) w = after_security-resent headers c _ w

  shared-resent :
      (w : W)
      → strip strip_header_names h ≡ strip strip_header_names r.headers
      → shared sys store crypto cfg resent w ≡ shared sys store crypto cfg r w
  unfolding shared
  shared-resent w e =
      ap (λ x. after_no_ip sys store crypto cfg resent x w)
        (no_ip-strip_only (not (is_production cfg)) h r.headers [] e)
      ∙ after_no_ip-resent _ w

module _ {W C : Type 0} (s : Server W C) (route : Route) (r : Request) (body : Text) (w : W) where
  -- What a request is answered, and what it leaves of the world, is the same whatever value is set
  -- for a header that names the client's address, and also if that header is removed.
  pub serve-blind :
      (name value : Text)
      → has_text name ip_headers ≡ true
      → (serve s route (record r { headers = put name value r.headers }) body w
          ≡ serve s route r body w)
        × (serve s route (record r { headers = del name r.headers }) body w
            ≡ serve s route r body w)
  unfolding serve
  serve-blind name value named = (
    ap (after_shared s route body) (
        shared-resent s.auth.sys s.store s.auth.crypto s.cfg r (put name value r.headers) w
          (strip-put strip_header_names name value r.headers named)),
    ap (after_shared s route body) (
        shared-resent s.auth.sys s.store s.auth.crypto s.cfg r (del name r.headers) w
          (strip-del strip_header_names name r.headers named)),
  )
