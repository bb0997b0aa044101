-- ===== src/Errors.antt =====
-- internal/domain/errors.go, and Go's error values: sentinels, texts of other libraries' errors,
-- and the wrapping of `fmt.Errorf` with `%w`, which `errors.Is` looks through.
use mathlib.Core.List.{◌++◌}
use echo_backend.Base.{Bool, true, false}
use echo_backend.Text.{Text, codes}

-- The five sentinels of the package domain, then those of gorm and go-redis that the code tests for.
pub data Sentinel : Type 0 where
  not_found unauthorized forbidden conflict invalid_input : Sentinel
  record_not_found redis_nil : Sentinel

pub data Error : Type 0 where
  sentinel : Sentinel → Error
  failure : Text → Error
  wrapped : Text → Error → Error

unfoldable pub sentinel_eq : Sentinel → Sentinel → Bool
sentinel_eq not_found not_found = true
sentinel_eq unauthorized unauthorized = true
sentinel_eq forbidden forbidden = true
sentinel_eq conflict conflict = true
sentinel_eq invalid_input invalid_input = true
sentinel_eq record_not_found record_not_found = true
sentinel_eq redis_nil redis_nil = true
sentinel_eq _ _ = false

-- `errors.Is`
unfoldable pub is_error : Error → Sentinel → Bool
unfolding sentinel_eq
is_error (sentinel s) t = sentinel_eq s t
is_error (failure _) t = false
is_error (wrapped _ e) t = is_error e t

abbrev pub sentinel_text : Sentinel → Text
sentinel_text not_found = codes "not found"
sentinel_text unauthorized = codes "unauthorized"
sentinel_text forbidden = codes "forbidden"
sentinel_text conflict = codes "conflict"
sentinel_text invalid_input = codes "invalid input"
sentinel_text record_not_found = codes "record not found"
sentinel_text redis_nil = codes "redis: nil"

-- `err.Error()`
unfoldable pub error_text : Error → Text
error_text (sentinel s) = sentinel_text s
error_text (failure t) = t
error_text (wrapped t e) = t ++ codes ": " ++ error_text e

pub data Result (A : Type 0) : Type 0 where
  ok : A → Result A
  err : Error → Result A
