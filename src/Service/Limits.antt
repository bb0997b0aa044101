-- ===== src/Service/Limits.antt =====
-- The bounds on page sizes and on texts that the services share.
use echo_backend.Base.{ℕ, Bool, ◌||◌, ltb, if◌then◌else◌}
use echo_backend.Base.Int.{ℤ, pos, ltb_ℤ, leb_ℤ}
use echo_backend.Text.{Text, is_empty, len}

-- `if limit <= 0 { limit = 20 }; if limit > 100 { limit = 100 }`
unfoldable pub clamp_limit : ℤ → ℤ
clamp_limit limit =
    let positive : ℤ = if leb_ℤ limit (pos 0) then pos 20 else limit in
    if ltb_ℤ (pos 100) positive then pos 100 else positive

-- `trimmed == "" || len(trimmed) > max`
unfoldable pub bad_length : ℕ → Text → Bool
bad_length max trimmed = is_empty trimmed || ltb max (len trimmed)
