-- ===== src/Handler/Request.antt =====
-- What the handlers share: the values that the middleware stored, identifiers, and page limits.
pub mod Limits
use echo_backend.Base.{Option, none, some, if◌then◌else◌}
use echo_backend.Base.Int.{ℤ, pos, ltb_ℤ}
use echo_backend.Text.{Text, codes}
use echo_backend.Errors.{Error, sentinel, unauthorized, invalid_input, Result, ok, err}
use echo_backend.Domain.{Uuid}
use echo_backend.Middleware.Gin.{Context, Value, uuid_value, text_value, bool_value, get}

-- `c.Get("userID")`, asserted to be a UUID.
abbrev pub as_uuid : Option Value → Result Uuid
as_uuid (some (uuid_value u)) = ok u
as_uuid (some (text_value _)) = err (sentinel unauthorized)
as_uuid (some (bool_value _)) = err (sentinel unauthorized)
as_uuid none = err (sentinel unauthorized)

unfoldable pub user_of : Context → Result Uuid
user_of c = as_uuid (get c (codes "userID"))

-- `c.Get("pseudonym")`, asserted to be a string.
abbrev pub as_text : Option Value → Result Text
as_text (some (text_value s)) = ok s
as_text (some (uuid_value _)) = err (sentinel unauthorized)
as_text (some (bool_value _)) = err (sentinel unauthorized)
as_text none = err (sentinel unauthorized)

unfoldable pub pseudonym_of : Context → Result Text
pseudonym_of c = as_text (get c (codes "pseudonym"))

-- Any error becomes `domain.ErrInvalidInput`.
abbrev pub as_invalid : Error → Error
as_invalid _ = sentinel invalid_input

-- `limit := 20; if req.Limit > 0 { limit = req.Limit }`
abbrev pub page_limit : ℤ → ℤ
page_limit limit = if ltb_ℤ (pos 0) limit then limit else pos 20
