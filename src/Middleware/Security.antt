-- ===== src/Middleware/Security.antt =====
-- internal/middleware/security.go. The target of the redirect is a parameter here; the router makes
-- it of the configured address and of the path and query of the request.
pub mod Redirect
use echo_backend.Base.{Bool, not, Option, none, some, ◌++◌, if◌then◌else◌}
use echo_backend.Text.{Text, codes, text_eq, contains, trim_space, to_lower}
use echo_backend.Middleware.Headers.{Headers, put}

unfoldable pub set_security_headers : Headers → Headers
set_security_headers h =
    put (codes "Permissions-Policy") (codes "geolocation=(), microphone=(), camera=()") (
      put (codes "Referrer-Policy") (codes "no-referrer") (
        put (codes "X-Frame-Options") (codes "DENY") (
          put (codes "X-Content-Type-Options") (codes "nosniff")
            (put (codes "Content-Security-Policy") (codes "default-src 'self'") h))))

-- `net.JoinHostPort`: an address of IPv6 stands in brackets.
unfoldable pub join_host_port : Text → Text → Text
join_host_port host port =
    if contains host (codes ":")
    then codes "[" ++ host ++ codes "]:" ++ port
    else host ++ codes ":" ++ port

-- `strings.ToLower(strings.TrimSpace(proto)) == "https"`
unfoldable pub is_https : Text → Bool
is_https proto = text_eq (to_lower (trim_space proto)) (codes "https")

-- The response headers, and where the request is redirected, if it does not go on.
unfoldable pub security : Bool → Text → Text → Headers → Headers × Option Text
unfolding set_security_headers is_https
security production proto target h =
    if production
    then (if not (is_https proto) then (set_security_headers h, some target) else (
      set_security_headers
          (put (codes "Strict-Transport-Security") (codes "max-age=63072000; includeSubDomains") h),
      none,
    ))
    else (set_security_headers h, none)
