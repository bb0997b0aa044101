-- ===== src/Crypto.antt =====
-- The libraries that the two Auth types call: google/uuid, golang-jwt and bcrypt, and SHA-256 of
-- the standard library. A record of functions, with the laws that the code relies on.
use echo_backend.Base.{ℕ, ◌/◌, ◌%◌, ◌+◌, ◌-◌, ◌≡◌, Bool, true, [], ◌∷◌, ltb, if◌then◌else◌}
use echo_backend.Text.{Text}
use echo_backend.Errors.{Result, ok}
use echo_backend.Effect.{M, Ensures}
use echo_backend.Domain.{Uuid, Time}

pub record Claims : Type 0 where
  pub user_id : Text
  pub pseudonym : Text
  pub is_admin : Bool
  pub expires_at : Time
  pub issued_at : Time

-- The dynamic type of `t.Method`.
pub data SigningMethod : Type 0 where
  hmac other_method : SigningMethod

-- `*jwt.Token` after a parse without error: `typed` tells whether its claims are a `*Claims`.
pub record Parsed : Type 0 where
  pub claims : Claims
  pub valid : Bool
  pub typed : Bool

pub record Crypto (W : Type 0) : Type 0 where
  pub uuid_string : Uuid → Text
  pub uuid_parse : Text → Result Uuid
  -- `jwt.NewNumericDate`
  pub numeric_date : Time → Time
  -- `NewWithClaims(SigningMethodHS256, claims).SignedString(secret)`
  pub jwt_sign : Text → Claims → Result Text
  -- `ParseWithClaims(token, claims, keyFunc)`, which looks at the clock
  pub jwt_parse : Text → (SigningMethod → Result Text) → M W Parsed
  pub bcrypt_generate : Text → M W Text
  pub bcrypt_compare : Text → Text → Result (Unit {0})
  -- The 32 bytes of the sum.
  pub sha256 : Text → Text

hex_digit : ℕ → ℕ
hex_digit n = if ltb n 10 then b'0' + n else b'a' + (n - 10)

-- `hex.EncodeToString`
unfoldable pub hex_encode : Text → Text
unfolding hex_digit
hex_encode [] = []
hex_encode (b ∷ s) = hex_digit (b / 16) ∷ hex_digit (b % 16) ∷ hex_encode s

-- What holds of the real libraries. `is_live` tells whether a token with these claims is accepted
-- by the clock of this world, and `view` what the world holds that they do not touch.
pub record IsCrypto {W V : Type 0} (crypto : Crypto W) (is_live : Claims → W → Bool) (view : W → V)
    : Type 0 where
  pub parse-string : (u : Uuid) → crypto.uuid_parse (crypto.uuid_string u) ≡ ok u
  pub parse-sign :
      (secret : Text) (c : Claims) (token : Text) (key : SigningMethod → Result Text) (w : W)
      → crypto.jwt_sign secret c ≡ ok token
      → key hmac ≡ ok secret
      → is_live c w ≡ true
      → (crypto.jwt_parse token key w).0 ≡ ok (record { claims = c; valid = true; typed = true })
  pub jwt_parse_reads :
      (token : Text) (key : SigningMethod → Result Text) (w : W)
      → Ensures (λ _ w'. view w' ≡ view w) (λ _ w'. view w' ≡ view w) (crypto.jwt_parse token key w)
  pub generate_lem :
      (text : Text) (w : W)
      → Ensures
          (λ hash w'. (crypto.bcrypt_compare hash text ≡ ok tt) × (view w' ≡ view w))
          (λ _ w'. view w' ≡ view w)
          (crypto.bcrypt_generate text w)
