-- ===== src/Tests/Headers.antt =====
-- The theorems on headers at a concrete request.
use echo_backend.Middleware.Tor.{tor}
use echo_backend.Middleware.Tor.Onion.{https, tor-onion_host}
use echo_backend.Base.{
  not, ◌&&◌, none, ◌≡◌, ◌⊎◌, refl, true, some, List, [], ◌∷◌, ◌++◌, if◌then◌else◌,
}
use echo_backend.Text.{Text, codes, text_eq, is_empty, trim_space}
use echo_backend.Middleware.Security.{security, is_https}
use echo_backend.Middleware.Security.Redirect.{IsSecured, security-IsSecured}
use echo_backend.Middleware.Gin.{set, text_value}
use echo_backend.Middleware.Headers.{
  Headers, header, del, has_text, ip_headers, no_ip, new_cors, cors_handler,
}
use echo_backend.Middleware.Headers.Laws.{no_ip-strip}
use echo_backend.Middleware.Headers.Origins.{IsListed, cors_handler-IsListed}

abbrev forwarded : Headers
forwarded =
    (codes "X-Real-Ip", codes "10.0.0.1")
    ∷ (codes "Origin", codes "https://echo.example")
    ∷ (codes "X-Real-Ip", codes "10.0.0.2")
    ∷ []

abbrev allowed : List Text
allowed = codes " https://echo.example" ∷ codes "" ∷ []

kept_origin :
    (cors_handler (new_cors allowed) (codes "https://echo.example") (codes "GET") []).0
    ≡ (codes "Access-Control-Allow-Headers", codes "Authorization,Content-Type")
      ∷ (codes "Access-Control-Allow-Methods", codes "GET,POST,PUT,PATCH,DELETE,OPTIONS")
      ∷ (codes "Vary", codes "Origin")
      ∷ (codes "Access-Control-Allow-Origin", codes "https://echo.example")
      ∷ []
unfolding cors_handler new_cors is_empty del text_eq trim_space
kept_origin = refl

no_ip-strip_example :
    (stripped : Headers) × (no_ip true forwarded []
      ≡ some (stripped, set (codes "client_ip") (text_value []) []))
    × (header stripped (codes "X-Real-Ip") ≡ (
        if has_text (codes "X-Real-Ip") ip_headers
        then []
        else header forwarded (codes "X-Real-Ip")))
no_ip-strip_example = no_ip-strip true forwarded [] (codes "X-Real-Ip")

cors_handler-IsListed_example :
    (header
        (cors_handler (new_cors allowed) (codes "https://echo.example") (codes "GET") []).0
        (codes "Access-Control-Allow-Origin")
      ≡ [])
    ⊎ (IsListed (codes "*") allowed ⊎ IsListed (codes "https://echo.example") allowed)
unfolding header
cors_handler-IsListed_example =
    cors_handler-IsListed allowed (codes "https://echo.example") (codes "GET") [] refl

security-IsSecured_example :
    IsSecured (security true (codes "http") (codes "https://echo.example:443/") forwarded).0
    × ((security true (codes "http") (codes "https://echo.example:443/") forwarded).1 ≡ (
        if true && not (is_https (codes "http"))
        then some (codes "https://echo.example:443/")
        else none))
security-IsSecured_example =
    security-IsSecured true (codes "http") (codes "https://echo.example:443/") forwarded

tor-onion_host_example :
    (header (tor (codes " https://abcd.onion/ ") (codes "/feed") []) (codes "Onion-Location")
      ≡ codes "http://" ++ codes "abcd.onion" ++ codes "/feed")
    × (header (tor (codes " https://abcd.onion/ ") (codes "/feed") []) (codes "Server") ≡ [])
    × (header (tor (codes " https://abcd.onion/ ") (codes "/feed") []) (codes "X-Powered-By") ≡ [])
unfolding is_empty trim_space
tor-onion_host_example =
    tor-onion_host (codes " https://abcd.onion/ ") (codes "/feed") [] https true
      (codes "abcd.onion") refl (refl, refl, refl)
