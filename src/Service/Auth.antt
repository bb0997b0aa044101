-- ===== src/Service/Auth.antt =====
-- internal/service/auth.go
pub mod Session
pub mod Register
pub mod Refresh
use echo_backend.Base.{
  ℕ, zero, suc, ◌+◌, ◌-◌, Bool, false, not, ◌||◌, Option, none, some, if◌then◌else◌,
}
use echo_backend.Base.Int.{ℤ, pos, sub_ℕ, pos_part, neg_part, leb_ℤ}
use echo_backend.Text.{Text, codes, is_empty, trim_space}
use echo_backend.Errors.{
  Error, sentinel, wrapped, unauthorized, conflict, not_found, redis_nil, is_error, Result, ok, err,
}
use echo_backend.Effect.{
  M, pure, fail, reject, reject_if, ◌>>=◌, ◌>>◌, attempt, total, context, map_error, from_result,
}
use echo_backend.Domain.{Uuid, Time, User}
use echo_backend.Crypto.{Crypto, Claims, SigningMethod, hmac, other_method, hex_encode}
use echo_backend.Database.{Database}
use echo_backend.Redis.{Redis}
use echo_backend.System.{System}
use echo_backend.Repository.Users
use echo_backend.Service.Reports.{session_key}

-- `t.Add(d)`, and `t.Sub(u)`. A `Duration` is under 293 years, so no sum passes the year 1.
abbrev pub add_duration : Time → ℤ → Time
add_duration t d = t + pos_part d - neg_part d

-- The key function that both parsers give: only HMAC tokens are checked, with the secret.
unfoldable pub hmac_key : Text → SigningMethod → Result Text
hmac_key secret hmac = ok secret
hmac_key secret other_method = err (sentinel unauthorized)

-- Any error becomes `domain.ErrUnauthorized`.
abbrev pub as_unauthorized : Error → Error
as_unauthorized _ = sentinel unauthorized

-- An error that is the sentinel becomes `domain.ErrUnauthorized`, any other is wrapped.
unfoldable pub session_error : Error → Error
session_error e =
    if is_error e redis_nil then sentinel unauthorized else wrapped (codes "get session") e

unfoldable pub user_error : Error → Error
user_error e = if is_error e not_found then sentinel unauthorized else wrapped (codes "get user") e

module _ {W : Type 0} (crypto : Crypto W) where
  unfoldable pub token_digest : Text → Text
  token_digest token = hex_encode (crypto.sha256 token)

-- The fields of `Auth`: the generator draws a pseudonym.
pub record AuthService (W : Type 0) : Type 1 where
  pub db : Database W
  pub sys : System W
  pub redis : Redis W
  pub crypto : Crypto W
  pub generate : W → Text × W
  pub secret : Text
  pub ttl : ℤ

module _ {W : Type 0} (a : AuthService W) where
  unfoldable pub sign : Uuid → Text → Bool → Time → M W Text
  sign user_id pseudonym is_admin expires_at = do
    now ← total a.sys.now
    from_result (
        a.crypto.jwt_sign a.secret (record {
          user_id = a.crypto.uuid_string user_id;
          pseudonym = pseudonym;
          is_admin = is_admin;
          expires_at = a.crypto.numeric_date expires_at;
          issued_at = a.crypto.numeric_date now;
        }))

  unfoldable pub parse : Text → M W Claims
  unfolding hmac_key
  parse token = do
    parsed ← a.crypto.jwt_parse token (hmac_key a.secret)
    reject_if
        (not parsed.valid
          || is_empty (trim_space parsed.claims.user_id)
          || is_empty (trim_space parsed.claims.pseudonym))
        unauthorized
    pure parsed.claims

  unfoldable pub store_session : Uuid → Text → Time → M W (Unit {0})
  store_session user_id token_hash expires_at = do
    now ← total a.sys.now
    let ttl = sub_ℕ expires_at now
    reject_if (leb_ℤ ttl (pos 0)) unauthorized
    a.redis.set (session_key (a.crypto.uuid_string user_id)) token_hash ttl

  -- What the round makes of the attempt to store the user.
  unfoldable pub settle_round :
      Text × Text × Text → Result (Unit {0}) → M W (Option (Text × Text × Text))
  settle_round t (ok _) = pure (some t)
  settle_round t (err e) =
      if is_error e conflict then pure none else fail (wrapped (codes "create user") e)

  -- One round of the loop in `Register`: the token with its hash and pseudonym, or `none` where
  -- the pseudonym is taken.
  unfoldable pub register_round : Uuid → Time → Time → M W (Option (Text × Text × Text))
  register_round user_id now expires_at = do
    pseudonym ← total a.generate
    signed ← context (codes "sign token") (sign user_id pseudonym false expires_at)
    hash ← context (codes "hash token") (a.crypto.bcrypt_generate (token_digest a.crypto signed))
    created ← attempt (
        Users.create a.db (record {
          id = user_id;
          pseudonym = pseudonym;
          token_hash = hash;
          is_admin = false;
          created_at = now;
          expires_at = expires_at;
        }))
    settle_round (signed, hash, pseudonym) created

  -- The loop, with the rounds that are left.
  unfoldable pub register_loop : ℕ → Uuid → Time → Time → M W (Option (Text × Text × Text))
  register_loop zero user_id now expires_at = pure none
  register_loop (suc rounds) user_id now expires_at = do
    drawn ← register_round user_id now expires_at
    elim drawn [ some t ↦ pure (some t) | none ↦ register_loop rounds user_id now expires_at ]

  -- What follows the loop: `token == ""` is tested, as the source does.
  unfoldable pub finish_register : Uuid → Time → Option (Text × Text × Text) → M W (Text × Text)
  finish_register user_id expires_at none = reject conflict
  finish_register user_id expires_at (some (token, hash, pseudonym)) = do
    reject_if (is_empty token) conflict
    context (codes "store session") (store_session user_id hash expires_at)
    pure (token, pseudonym)

  -- The token and the pseudonym of a new user.
  unfoldable pub register : M W (Text × Text)
  register = do
    user_id ← total a.sys.new_uuid
    now ← total a.sys.now
    let expires_at = add_duration now a.ttl
    drawn ← register_loop 8 user_id now expires_at
    finish_register user_id expires_at drawn

  -- The second half of `Refresh`: the new token replaces the old one, for the user and the session.
  unfoldable pub rotate : User → M W Text
  rotate user = do
    now ← total a.sys.now
    let expires_at = add_duration now a.ttl
    new_token ← context (codes "sign token") (sign user.id user.pseudonym user.is_admin expires_at)
    new_hash ←
        context (codes "hash token") (a.crypto.bcrypt_generate (token_digest a.crypto new_token))
    context (codes "update token") (Users.update_token a.db user.id new_hash expires_at)
    context (codes "store session") (store_session user.id new_hash expires_at)
    pure new_token

  -- The first half: the user whose current token this is.
  unfoldable pub check_token : Text → M W User
  unfolding session_error user_error
  check_token old_token = do
    claims ← map_error as_unauthorized (parse old_token)
    user_id ← map_error as_unauthorized (from_result (a.crypto.uuid_parse claims.user_id))
    session_hash ←
        map_error session_error (a.redis.get (session_key (a.crypto.uuid_string user_id)))
    map_error as_unauthorized
        (from_result (a.crypto.bcrypt_compare session_hash (token_digest a.crypto old_token)))
    user ← map_error user_error (Users.get_by_id a.db user_id)
    map_error as_unauthorized
        (from_result (a.crypto.bcrypt_compare user.token_hash (token_digest a.crypto old_token)))
    pure user

  unfoldable pub refresh : Text → M W Text
  refresh old_token = do user ← check_token old_token; rotate user
