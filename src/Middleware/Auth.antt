-- ===== src/Middleware/Auth.antt =====
-- internal/middleware/auth.go. A request without a valid session is an error `unauthorized`, which
-- `verdict` turns into the answer 401; a failure of Redis becomes the answer 500.

pub mod Session
pub mod Login
pub mod Registered
use echo_backend.Base.{Bool, not, ◌||◌, Option, none, some, if◌then◌else◌}
use echo_backend.Text.{Text, codes, is_empty, trim_space, equal_fold, split_space}
use echo_backend.Errors.{
  Error, sentinel, failure, unauthorized, redis_nil, is_error, Result, ok, err,
}
use echo_backend.Effect.{M, pure, reject_if, ◌>>=◌, ◌>>◌, map_error, from_result}
use echo_backend.Crypto.{Crypto, Claims}
use echo_backend.Domain.{Uuid}
use echo_backend.Redis.{Redis}
use echo_backend.Service.Reports.{session_key}
use echo_backend.Service.Auth.{hmac_key, as_unauthorized, token_digest}
use echo_backend.Middleware.Gin.{
  Context, Verdict, next, abort, set, uuid_value, text_value, bool_value,
}

-- The token of a header in two parts.
unfoldable pub token_part : Option (Text × Text) → Result Text
token_part none = err (sentinel unauthorized)
token_part (some parts) =
    if equal_fold parts.0 (codes "Bearer") then ok parts.1 else err (sentinel unauthorized)

-- The token of an `Authorization` header.
unfoldable pub bearer : Text → Result Text
bearer authorization =
    if is_empty authorization
    then err (sentinel unauthorized)
    else token_part (split_space authorization)

unfoldable pub session_denial : Error → Error
session_denial e =
    if is_error e redis_nil then sentinel unauthorized else failure (codes "internal error")

-- The values that the handlers after this one find.
abbrev pub stored : Uuid → Text → Bool → Context → Context
stored user_id pseudonym is_admin c = set (codes "isAdmin") (bool_value is_admin) (
    set (codes "pseudonym") (text_value pseudonym)
      (set (codes "user_id") (uuid_value user_id) (set (codes "userID") (uuid_value user_id) c)))

unfoldable pub verdict : {W : Type 0} → Result Context × W → Verdict × W
verdict (ok c, w) = (next c, w)
verdict (err e, w) = (
  if is_error e unauthorized
      then abort 401 (codes "unauthorized") (codes "ERR_UNAUTHORIZED")
      else abort 500 (codes "internal error") (codes "ERR_INTERNAL"),
  w,
)

module _ {W : Type 0} (redis : Redis W) (crypto : Crypto W) (secret : Text) where
  -- The claims of a token that the library accepts.
  unfoldable pub read_claims : Text → M W Claims
  read_claims token = do
    parsed ← map_error as_unauthorized (crypto.jwt_parse token (hmac_key secret))
    reject_if (not parsed.typed || not parsed.valid) unauthorized
    reject_if
        (is_empty (trim_space parsed.claims.user_id)
          || is_empty (trim_space parsed.claims.pseudonym))
        unauthorized
    pure parsed.claims

  -- The session of the user, against the token.
  unfoldable pub check_session : Text → Uuid → M W (Unit {0})
  unfolding session_denial
  check_session token user_id = do
    hash ← map_error session_denial (redis.get (session_key (crypto.uuid_string user_id)))
    map_error as_unauthorized (from_result (crypto.bcrypt_compare hash (token_digest crypto token)))

  unfoldable pub authenticate : Text → Context → M W Context
  authenticate authorization c = do
    token ← from_result (bearer authorization)
    claims ← read_claims token
    user_id ← map_error as_unauthorized (from_result (crypto.uuid_parse claims.user_id))
    check_session token user_id
    pure (stored user_id claims.pseudonym claims.is_admin c)

  unfoldable pub auth_handler : Text → Context → W → Verdict × W
  auth_handler authorization c w = verdict (authenticate authorization c w)
