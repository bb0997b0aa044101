-- ===== src/Middleware/Auth/Login.antt =====
-- internal/middleware/auth.go lets the tokens through that internal/service/auth.go signs.
use echo_backend.Base.{
  ◌≡◌, ◌∙◌, refl, ap, Bool, true, false, not, ◌||◌, Option, some, [], ◌∷◌, Bool-cases, inl, inr,
}
use echo_backend.Text.{Text, codes, is_empty, trim_space, equal_fold, split_space}
use echo_backend.Errors.{Error, unauthorized, redis_nil, is_error, Result, ok, err}
use echo_backend.Effect.{Ensures}
use echo_backend.Effect.Rules.{bind, guarded, returned, Ensures-mono, mapped, exact, told}
use echo_backend.Crypto.{Claims}
use echo_backend.Database.{Tables}
use echo_backend.Domain.{Uuid, Time}
use echo_backend.Service.Auth.{AuthService, hmac_key, as_unauthorized, token_digest}
use echo_backend.Service.Reports.{session_key}
use echo_backend.Service.Auth.Session.{IsAuth, claims_of, Answers, HasSession}
use echo_backend.Middleware.Gin.{Context, Verdict, next, abort}
use echo_backend.Middleware.Auth.{
  token_part, bearer, session_denial, stored, verdict, read_claims, check_session, authenticate,
  auth_handler,
}

-- The request goes on with this context if Redis answers with a session, and is answered 500 if
-- Redis fails.
abbrev pub IsEntered : {W : Type 0} → Result Text → Context → Verdict × W → Type 0
IsEntered answer c (next c', _) = (c' ≡ c) × ((hash : Text) × (answer ≡ ok hash))
IsEntered answer c (abort status _ _, _) = (status ≡ 500) × ((e : Error) × (answer ≡ err e))

-- What Redis answers when it is asked for the session of the user, after the token is parsed.
abbrev pub session_answer : {W : Type 0} → AuthService W → Uuid → Text → W → Result Text
session_answer a user_id token w =
    let (_, parsed) = a.crypto.jwt_parse token (hmac_key a.secret) w in
    (a.redis.get (session_key (a.crypto.uuid_string user_id)) parsed).0

some_header :
    (authorization : Text) (parts : Text × Text)
    → split_space authorization ≡ some parts
    → is_empty authorization ≡ false
unfolding split_space is_empty
some_header [] parts e = cc
some_header (_ ∷ _) parts e = refl

session_denial-internal :
    (e : Error) → is_error e redis_nil ≡ false → is_error (session_denial e) unauthorized ≡ false
unfolding session_denial is_error
session_denial-internal e other = rw other refl

module _ {W : Type 0} (a : AuthService W) (view : W → Tables) (keys : W → Text → Option Text)
    (is_live : Claims → W → Bool) (h : IsAuth a view keys is_live) where
  -- The error is not the one that is answered 401, and Redis failed.
  abbrev IsInternal : Result Text → Error → W → Type 0
  IsInternal answer e w = (is_error e unauthorized ≡ false) × ((f : Error) × (answer ≡ err f))

  abbrev IsAnswer : Result Text → W → Type 0
  IsAnswer answer w = (hash : Text) × (answer ≡ ok hash)

  bearer-login :
      (authorization scheme token : Text)
      → split_space authorization ≡ some (scheme, token)
      → equal_fold scheme (codes "Bearer") ≡ true
      → bearer authorization ≡ ok token
  unfolding bearer token_part
  bearer-login authorization scheme token e folds =
      rw (some_header authorization _ e) (rw e (rw folds refl))

  read_claims-login :
      (claims : Claims) (token : Text) (w : W)
      → a.crypto.jwt_sign a.secret claims ≡ ok token
      → is_live claims w ≡ true
      → is_empty (trim_space claims.user_id) ≡ false
      → is_empty (trim_space claims.pseudonym) ≡ false
      → Ensures
          (λ c w'. (c ≡ claims) × (w' ≡ (a.crypto.jwt_parse token (hmac_key a.secret) w).1))
          (λ _ _. ⊥)
          (read_claims a.redis a.crypto a.secret token w)
  unfolding read_claims hmac_key
  read_claims-login claims token w signed live id_text name_text =
      bind _ _ _ _ _ w
        (mapped _ _ as_unauthorized _ w (
          exact _ (record { claims = claims; valid = true; typed = true }) _
            (h.crypto.parse-sign a.secret claims token (hmac_key a.secret) w signed refl live)))
        λ p w₁ h₁.
          bind _ _ (λ _ w'. w' ≡ w₁) _ _ w₁
            (guarded _ _ (not p.typed || not p.valid) unauthorized w₁ (λ _. refl)
              (λ e. let f = rw h₁.0 at e in cc))
            λ _ w₂ h₂.
              bind _ _ (λ _ w'. w' ≡ w₁) _ _ w₂
                (guarded _ _ _ unauthorized w₂ (λ _. h₂)
                  (λ e. let f = rw (h₁.0, id_text, name_text) at e in cc))
                λ _ w₃ h₃. returned _ _ _ _ (ap (λ q. q.claims) h₁.0, h₃ ∙ h₁.1)

  check_session-login :
      (user_id : Uuid) (hash token : Text) (w : W)
      → HasSession a keys user_id hash w
      → Answers a hash token
      → Ensures
          (λ _ w'. IsAnswer (a.redis.get (session_key (a.crypto.uuid_string user_id)) w).0 w')
          (IsInternal (a.redis.get (session_key (a.crypto.uuid_string user_id)) w).0)
          (check_session a.redis a.crypto a.secret token user_id w)
  unfolding check_session
  check_session-login user_id hash token w live answers =
      bind _ _ (λ v _. (v ≡ hash) × (answer ≡ ok v)) _ _ w
        (mapped _ _ session_denial _ w (
          Ensures-mono _ _ _ _ _ (told _ _ asked (h.sessions.get_lem _ w))
            (λ v w' q. ((let found = q.0.0 in cc), q.1))
            (λ e w' q. (
              elim (Bool-cases (is_error e redis_nil)) [
                | inl gone ↦ (let none_left = q.0.0 gone in cc)
                | inr other ↦ session_denial-internal e other
              ],
              (e, q.1),
            ))))
        λ v w₁ same. mapped _ _ as_unauthorized _ w₁ (
          Ensures-mono _ _ _ _ _
            (exact (λ e _. IsInternal answer (as_unauthorized e) w₁) tt
              (a.crypto.bcrypt_compare v (token_digest a.crypto token), w₁) (rw same.0 answers))
            (λ _ _ _. (v, same.1)) (λ e w' q. q))
    where
      asked : Result Text × W
      asked = a.redis.get (session_key (a.crypto.uuid_string user_id)) w

      answer : Result Text
      answer = asked.0

  entered :
      (answer : Result Text) (c : Context) (x : Result Context × W)
      → Ensures (λ d w. (d ≡ c) × IsAnswer answer w) (IsInternal answer) x
      → IsEntered answer c (verdict x)
  unfolding Ensures verdict
  entered answer c (ok d, w) q = q
  entered answer c (err e, w) q = rw q.0 (refl, q.1)

  -- A request with a token that `Auth` signed for a user, that is live by the clock, and whose hash
  -- is in the user's live session when Redis is asked, goes on as that user, with the pseudonym and
  -- the role that were signed, if the call of Redis for the session returns; if the call fails, the
  -- request is answered 500. The texts of the user's UUID and of the pseudonym are not blank.
  pub auth_handler-admits :
      (user_id : Uuid) (pseudonym : Text) (is_admin : Bool) (expires_at issued_at : Time)
      (token hash authorization scheme : Text) (c : Context) (w : W)
      → split_space authorization ≡ some (scheme, token)
      → equal_fold scheme (codes "Bearer") ≡ true
      → a.crypto.jwt_sign a.secret (claims_of a user_id pseudonym is_admin expires_at issued_at)
        ≡ ok token
      → is_live (claims_of a user_id pseudonym is_admin expires_at issued_at) w ≡ true
      → is_empty (trim_space (a.crypto.uuid_string user_id)) ≡ false
      → is_empty (trim_space pseudonym) ≡ false
      → HasSession a keys user_id hash (a.crypto.jwt_parse token (hmac_key a.secret) w).1
      → Answers a hash token
      → IsEntered
          (session_answer a user_id token w)
          (stored user_id pseudonym is_admin c)
          (auth_handler a.redis a.crypto a.secret authorization c w)
  unfolding auth_handler authenticate
  auth_handler-admits user_id pseudonym is_admin expires_at issued_at token hash authorization
        scheme c w split folds signed live id_text name_text session answers =
      entered _ _ _ (
        bind _ _ _ _ _ w
          (exact _ token (bearer authorization, w)
            (bearer-login authorization scheme token split folds))
          λ t w₁ h₁.
            bind _ _
              (λ d w'. (d ≡ claims) × (w' ≡ (a.crypto.jwt_parse token (hmac_key a.secret) w).1)) _ _
              w₁
              (Ensures-mono _ _ _ _ _
                (rw (h₁.0, h₁.1) (read_claims-login claims token w signed live id_text name_text))
                (λ _ _ q. q) (λ _ _ q. absurd q))
              λ d w₂ h₂.
                bind _ _ _ _ _ w₂
                  (mapped _ _ as_unauthorized _ w₂ (
                    exact _ user_id (a.crypto.uuid_parse d.user_id, w₂)
                      (rw h₂.0 (h.crypto.parse-string user_id))))
                  λ u w₃ h₃.
                    bind _ _ (λ _ w'. IsAnswer (session_answer a user_id token w) w') _ _ w₃
                      (rw (h₁.0, h₃.0, h₃.1, h₂.1)
                        (check_session-login user_id hash token _ session answers))
                      λ _ w₄ h₄. returned _ _ _ _ (rw (h₃.0, h₂.0) refl, h₄))
    where
      claims : Claims
      claims = claims_of a user_id pseudonym is_admin expires_at issued_at
