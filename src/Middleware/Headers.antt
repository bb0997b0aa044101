-- ===== src/Middleware/Headers.antt =====
-- internal/middleware/noip.go, internal/audit/ip_audit.go and internal/middleware/cors.go. A
-- header map is the list of its entries under canonical names; every name of the source is
-- canonical as written.
pub mod Laws
pub mod Origins
pub mod Blind
use echo_backend.Base.{
  Bool, true, false, not, ◌&&◌, ◌||◌, Option, none, some, List, [], ◌∷◌, if◌then◌else◌,
}
use echo_backend.Text.{Text, codes, text_eq, is_empty, trim_space}
use echo_backend.Middleware.Gin.{Context, set, text_value}

abbrev pub Headers : Type 0
Headers = List (Text × Text)

-- `Header.Get(name)`: empty for a name without an entry.
unfoldable pub header : Headers → Text → Text
header [] name = []
header ((k, v) ∷ h) name = let rest = header h name in if text_eq k name then v else rest

-- `Header.Del(name)`
unfoldable pub del : Text → Headers → Headers
del name [] = []
del name ((k, v) ∷ h) = let rest = del name h in if text_eq k name then rest else (k, v) ∷ rest

-- `Header.Set(name, value)`
abbrev pub put : Text → Text → Headers → Headers
put name value h = (name, value) ∷ del name h

abbrev pub strip_header_names : List Text
strip_header_names =
    codes "X-Forwarded-For"
    ∷ codes "X-Real-Ip"
    ∷ codes "Cf-Connecting-Ip"
    ∷ codes "True-Client-Ip"
    ∷ []

abbrev pub ip_headers : List Text
ip_headers =
    codes "X-Forwarded-For"
    ∷ codes "X-Real-Ip"
    ∷ codes "Cf-Connecting-Ip"
    ∷ codes "True-Client-Ip"
    ∷ []

-- The loop of `NoIP`.
unfoldable pub strip : List Text → Headers → Headers
strip [] h = h
strip (name ∷ names) h = strip names (del name h)

-- The loop of `NoIPContext`: whether a header is left, which panics.
unfoldable pub leaks : List Text → Headers → Bool
leaks [] h = false
leaks (name ∷ names) h = not (is_empty (header h name)) || leaks names h

-- `NoIPContext`, which is `none` where it panics.
unfoldable pub no_ip_context : Headers → Bool → Option (Unit {0})
unfolding leaks
no_ip_context h development = if development && leaks ip_headers h then none else some tt

-- The headers and the values that the handlers after this one find, or `none` for a panic.
unfoldable pub no_ip : Bool → Headers → Context → Option (Headers × Context)
unfolding strip no_ip_context
no_ip development h c =
    let stripped = strip strip_header_names h in
    elim (no_ip_context stripped development) [
      | none ↦ none
      | some _ ↦ some (stripped, set (codes "client_ip") (text_value []) c)
    ]

pub record Cors : Type 0 where
  pub allow_all : Bool
  pub origins : List Text

unfoldable pub has_text : Text → List Text → Bool
has_text t [] = false
has_text t (s ∷ ss) = text_eq s t || has_text t ss

-- One round of the loop of `NewCORS`.
unfoldable pub allow : Text → Cors → Cors
allow origin m =
    let trimmed = trim_space origin in
    if is_empty trimmed
    then m
    else if text_eq trimmed (codes "*")
    then record m { allow_all = true }
    else record m { origins = trimmed ∷ m.origins }

unfoldable pub allow_each : List Text → Cors → Cors
unfolding allow
allow_each [] m = m
allow_each (origin ∷ origins) m = allow_each origins (allow origin m)

unfoldable pub new_cors : List Text → Cors
unfolding allow_each
new_cors allowed_origins = allow_each allowed_origins (record { allow_all = false; origins = [] })

-- The headers for an origin, on those that are set before.
unfoldable pub origin_headers : Cors → Text → Headers → Headers
unfolding has_text
origin_headers m origin h =
    if m.allow_all
    then put (codes "Access-Control-Allow-Origin") (codes "*") h
    else if has_text origin m.origins
    then put (codes "Vary") (codes "Origin") (put (codes "Access-Control-Allow-Origin") origin h)
    else h

-- The response headers, and whether the request ends here with 204.
unfoldable pub cors_handler : Cors → Text → Text → Headers → Headers × Bool
unfolding origin_headers
cors_handler m origin method h = if is_empty origin then (h, false) else (
  put (codes "Access-Control-Allow-Headers") (codes "Authorization,Content-Type") (
      put (codes "Access-Control-Allow-Methods") (codes "GET,POST,PUT,PATCH,DELETE,OPTIONS")
        (origin_headers m origin h)),
  text_eq method (codes "OPTIONS"),
)
