-- ===== src/Middleware/Security/Redirect.antt =====
-- internal/middleware/security.go: what every response has, and who is redirected.
use echo_backend.Base.{
  ◌≡◌, refl, Bool, Bool-cases, true, false, not, ◌&&◌, none, some, inl, inr, if◌then◌else◌,
}
use echo_backend.Text.{Text, codes, text_eq}
use echo_backend.Middleware.Headers.{Headers, header, del}
use echo_backend.Middleware.Security.{set_security_headers, is_https, security}

-- The five headers that every response has.
abbrev pub IsSecured : Headers → Type 0
IsSecured h =
    (header h (codes "Content-Security-Policy") ≡ codes "default-src 'self'")
    × (header h (codes "X-Content-Type-Options") ≡ codes "nosniff")
    × (header h (codes "X-Frame-Options") ≡ codes "DENY")
    × (header h (codes "Referrer-Policy") ≡ codes "no-referrer")
    × (header h (codes "Permissions-Policy") ≡ codes "geolocation=(), microphone=(), camera=()")

set_security_headers-IsSecured : (h : Headers) → IsSecured (set_security_headers h)
unfolding set_security_headers header del text_eq
set_security_headers-IsSecured h = (refl, refl, refl, refl, refl)

-- Whatever the request, the response has the five security headers; and the request is redirected,
-- instead of going on, exactly in production and when the proxy did not say `https`.
pub security-IsSecured :
    (production : Bool) (proto target : Text) (h : Headers)
    → IsSecured (security production proto target h).0
      × ((security production proto target h).1
          ≡ (if production && not (is_https proto) then some target else none))
unfolding security
security-IsSecured false proto target h = (set_security_headers-IsSecured h, refl)
security-IsSecured true proto target h = elim (Bool-cases (is_https proto)) [
  | inl https ↦ rw (https, security) (set_security_headers-IsSecured _, refl)
  | inr plain ↦ rw (plain, security) (set_security_headers-IsSecured h, refl)
]
