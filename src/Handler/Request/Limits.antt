-- ===== src/Handler/Request/Limits.antt =====
-- The page sizes of internal/handler and internal/service: what limit a query gets.
use echo_backend.Base.{ℕ, zero, suc, ◌≤◌, ◌≡◌, Bool-cases, inl, inr, ltb, arith}
use echo_backend.Base.Int.{ℤ, pos, negsuc}
use echo_backend.Service.Limits.{clamp_limit}
use echo_backend.Handler.Request.{page_limit}

-- Whatever limit a request has, negative ones included, the service queries for 1 to 100 rows; the
-- default of 20 that the handler fills in is the one that the service would take.
pub clamp_limit-page_limit :
    (limit : ℤ)
    → ((n : ℕ) × (clamp_limit (page_limit limit) ≡ pos n) × (1 ≤ n) × (n ≤ 100))
      × (clamp_limit (page_limit limit) ≡ clamp_limit limit)
unfolding clamp_limit
clamp_limit-page_limit (negsuc n) = ((20, ground arith, omega arith, omega arith), ground arith)
clamp_limit-page_limit (pos zero) = ((20, ground arith, omega arith, omega arith), ground arith)
clamp_limit-page_limit (pos (suc n)) = elim (Bool-cases (ltb 100 (suc n))) [
  | inl large ↦ ((100, ground arith, omega arith, omega arith), ground arith)
  | inr small ↦ ((suc n, ground arith, omega arith, ground arith), ground arith)
]
