-- ===== src/Middleware/Tor.antt =====
-- internal/middleware/tor.go: the response headers that it sets and removes.
pub mod Onion
use echo_backend.Base.{[], ◌++◌, length, drop, if◌then◌else◌}
use echo_backend.Text.{Text, codes, is_empty, trim_space, has_prefix}
use echo_backend.Middleware.Headers.{Headers, put, del}
use mathlib.Core.List.{reverse}

-- `strings.TrimPrefix` and `strings.TrimSuffix`
unfoldable pub trim_prefix : Text → Text → Text
trim_prefix s prefix = if has_prefix s prefix then drop (length prefix) s else s

unfoldable pub trim_suffix : Text → Text → Text
unfolding trim_prefix
trim_suffix s suffix = reverse (trim_prefix (reverse s) (reverse suffix))

-- The configured address without its scheme and its last slash.
unfoldable pub onion_host : Text → Text
unfolding trim_suffix
onion_host onion =
    trim_suffix (trim_prefix (trim_prefix onion (codes "http://")) (codes "https://")) (codes "/")

unfoldable pub tor : Text → Text → Headers → Headers
unfolding onion_host
tor onion_address uri h =
    let named = del (codes "X-Powered-By") (put (codes "Server") [] h) in
    let onion = trim_space onion_address in
    if is_empty onion
    then named
    else put (codes "Onion-Location") (codes "http://" ++ onion_host onion ++ uri) named
