-- ===== src/Middleware/Gin.antt =====
-- What the source uses of `gin.Context`: the values that a handler stores for those after it, and
-- the answer that ends a request early.
use echo_backend.Base.{ℕ, Bool, Option, none, some, List, [], ◌∷◌, if◌then◌else◌}
use echo_backend.Text.{Text, text_eq}
use echo_backend.Domain.{Uuid}

-- The dynamic types of the stored values.
pub data Value : Type 0 where
  uuid_value : Uuid → Value
  text_value : Text → Value
  bool_value : Bool → Value

abbrev pub Context : Type 0
Context = List (Text × Value)

-- `c.Get(key)`
unfoldable pub get : Context → Text → Option Value
unfolding text_eq
get [] key = none
get ((k, v) ∷ c) key = let rest = get c key in if text_eq k key then some v else rest

-- `c.Set(key, v)`: a later value hides an earlier one.
abbrev pub set : Text → Value → Context → Context
set key v c = (key, v) ∷ c

-- `c.Next()` with the values stored, or `c.JSON(status, httpError{error, code})` and `c.Abort()`.
pub data Verdict : Type 0 where
  next : Context → Verdict
  abort : ℕ → Text → Text → Verdict
