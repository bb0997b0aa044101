-- ===== src/Middleware/Auth/Session.antt =====
-- internal/middleware/auth.go: who is let through, and with which values.
use echo_backend.Base.{
  ◌≡◌, ◌∙◌, refl, sym, subst, ap, Bool, Bool-cases, true, false, not, ◌||◌, ◌⊎◌, Option, none, some,
  inl, inr,
}
use echo_backend.Text.{Text, codes, is_empty, equal_fold, split_space}
use echo_backend.Errors.{unauthorized, is_error, Result, ok, err}
use echo_backend.Effect.{Ensures}
use echo_backend.Effect.Rules.{
  bind, guarded, returned, Ensures-mono, mapped, left_with, from_result_lem, from_result_same,
}
use echo_backend.Crypto.{Crypto, Claims, SigningMethod, Parsed, IsCrypto}
use echo_backend.Database.Laws.{since}
use echo_backend.Domain.{Uuid}
use echo_backend.Redis.{Redis, IsRedis}
use echo_backend.Service.Reports.{session_key}
use echo_backend.Service.Auth.{hmac_key, as_unauthorized, token_digest}
use echo_backend.Middleware.Gin.{Context, Verdict, next, abort}
use echo_backend.Middleware.Auth.{
  token_part, bearer, session_denial, stored, verdict, read_claims, check_session, authenticate,
  auth_handler,
}

-- The header is `Bearer`, in any case, a space, and the token.
abbrev pub IsBearer : Text → Text → Type 0
IsBearer authorization token =
    (scheme : Text) × (split_space authorization ≡ some (scheme, token))
    × (equal_fold scheme (codes "Bearer") ≡ true)

valid_lem : (typed valid : Bool) → (not typed || not valid) ≡ false → valid ≡ true
valid_lem typed true e = refl
valid_lem true false e = cc
valid_lem false false e = cc

module _ {W V : Type 0} (redis : Redis W) (crypto : Crypto W) (secret : Text)
    (keys : W → Text → Option Text) (view : W → V) (is_live : Claims → W → Bool) where
  -- The hash answers to the token.
  abbrev pub AnswersTo : Text → Text → Type 0
  AnswersTo hash token = crypto.bcrypt_compare hash (token_digest crypto token) ≡ ok tt

  -- The JWT library accepts the token with these claims, in this world.
  abbrev pub IsAccepted : Text → Claims → W → Type 0
  IsAccepted token claims w =
      (p : Parsed) × ((crypto.jwt_parse token (hmac_key secret) w).0 ≡ ok p)
      × (p.valid ≡ true)
      × (p.claims ≡ claims)

  -- The request has a bearer token of this user with these claims: in this world, the JWT library
  -- accepts it, and the user's session is live in Redis with a hash that answers to it.
  abbrev pub IsLogin : Text → Claims → Uuid → W → Type 0
  IsLogin authorization claims user_id w =
      (token : Text) × (hash : Text) × IsBearer authorization token
      × IsAccepted token claims w
      × (crypto.uuid_parse claims.user_id ≡ ok user_id)
      × (keys w (session_key (crypto.uuid_string user_id)) ≡ some hash)
      × AnswersTo hash token

  -- What a request that is let through has shown, with the values that are stored for it.
  abbrev pub IsAdmitted : Text → Context → W → Context → Type 0
  IsAdmitted authorization c w c' =
      (claims : Claims) × (user_id : Uuid) × IsLogin authorization claims user_id w
      × (c' ≡ stored user_id claims.pseudonym claims.is_admin c)

  abbrev pub IsJudged : Text → Context → W → Verdict × W → Type 0
  IsJudged authorization c w (next c', w') = IsAdmitted authorization c w c' × (view w' ≡ view w)
  IsJudged authorization c w (abort status _ _, w') =
      ((status ≡ 401) ⊎ (status ≡ 500)) × (view w' ≡ view w)

  module _ (r : IsRedis keys view redis) (h : IsCrypto crypto is_live view)
      (parse_keeps : (token : Text) (key : SigningMethod → Result Text) (w : W)
        → keys (crypto.jwt_parse token key w).1 ≡ keys w) where
    token_part_lem :
        (o : Option (Text × Text)) (token : Text)
        → token_part o ≡ ok token
        → (scheme : Text) × (o ≡ some (scheme, token)) × (equal_fold scheme (codes "Bearer") ≡ true)
    unfolding token_part
    token_part_lem none token e = cc
    token_part_lem (some parts) token e = elim (Bool-cases (equal_fold parts.0 (codes "Bearer"))) [
      | inl folds ↦ (parts.0, (let f = rw folds at e in cc), folds)
      | inr other ↦ (let f = rw other at e in cc)
    ]

    bearer_lem :
        (authorization token : Text)
        → bearer authorization ≡ ok token
        → IsBearer authorization token
    unfolding bearer
    bearer_lem authorization token e = elim (Bool-cases (is_empty authorization)) [
      | inl blank ↦ (let f = rw blank at e in cc)
      | inr some_text ↦ token_part_lem (split_space authorization) token (rw some_text at e)
    ]

    -- The result and the world of a call, beside what the call ensures.
    kept :
        {A : Type 0} (Q E : W → Type 0) (x : Result A × W)
        → Ensures (λ _ w'. Q w') (λ _ w'. E w') x
        → Ensures (λ a w'. (x.0 ≡ ok a) × (w' ≡ x.1)) (λ _ w'. E w') x
    unfolding Ensures
    kept Q E (ok a, w) q = (refl, refl)
    kept Q E (err e, w) q = q

    read_claims_lem :
        (token : Text) (w : W)
        → Ensures
            (λ claims w'.
              IsAccepted token claims w
              × (w' ≡ (crypto.jwt_parse token (hmac_key secret) w).1)
              × (view w' ≡ view w))
            (λ _ w'. view w' ≡ view w)
            (read_claims redis crypto secret token w)
    unfolding read_claims
    read_claims_lem token w =
        let parse = crypto.jwt_parse token (hmac_key secret) w in
        let reads = h.jwt_parse_reads token (hmac_key secret) w in
        let left = left_with (λ w'. view w' ≡ view w) parse reads in
        bind _ _ _ _ _ w (mapped _ _ as_unauthorized _ w (kept _ _ parse reads)) λ p w₁ h₁.
          let same = ap view h₁.1 ∙ left in
          bind _ _ (λ _ w'. (p.valid ≡ true) × (w' ≡ w₁)) _ _ w₁
            (guarded _ _ (not p.typed || not p.valid) unauthorized w₁
              (λ e. (valid_lem p.typed p.valid e, refl)) (λ _. same))
            λ _ w₂ h₂.
              bind _ _ (λ _ w'. w' ≡ w₁) _ _ w₂
                (guarded _ _ _ unauthorized w₂ (λ _. h₂.1) (λ _. ap view h₂.1 ∙ same))
                λ _ w₃ h₃. returned _ _ _ _ ((p, h₁.0, h₂.0, refl), h₃ ∙ h₁.1, ap view h₃ ∙ same)

    check_session_lem :
        (token : Text) (user_id : Uuid) (w : W)
        → Ensures
            (λ _ w'.
              ((hash : Text) × (keys w (session_key (crypto.uuid_string user_id)) ≡ some hash)
                × AnswersTo hash token)
              × (view w' ≡ view w))
            (λ _ w'. view w' ≡ view w)
            (check_session redis crypto secret token user_id w)
    unfolding check_session
    check_session_lem token user_id w =
        bind _ _ _ _ _ w
          (mapped _ _ session_denial _ w
            (Ensures-mono _ _ _ _ _ (r.get_lem _ w) (λ v w' q. q) (λ e w' q. q.1)))
          λ hash w₁ h₁.
            Ensures-mono _ _ _ _ _
              (mapped _ _ as_unauthorized _ w₁
                (since view _ w w₁ _ h₁.1 (from_result_lem view _ w₁)))
              (λ one w₂ h₂. ((hash, h₁.0, h₂.0), h₂.1 ∙ h₁.1)) (λ e w₂ q. q)

    -- A key is live where the keys are those of a world in which it is.
    live_since : (k v : Text) (w₁ w : W) → keys w₁ ≡ keys w → keys w₁ k ≡ some v → keys w k ≡ some v
    live_since k v w₁ w same live = sym (ap (λ (f : Text → Option Text). f k) same) ∙ live

    authenticate_lem :
        (authorization : Text) (c : Context) (w : W)
        → Ensures
            (λ c' w'. IsAdmitted authorization c w c' × (view w' ≡ view w))
            (λ _ w'. view w' ≡ view w)
            (authenticate redis crypto secret authorization c w)
    unfolding authenticate
    authenticate_lem authorization c w =
        bind _ _ _ _ _ w (from_result_same view (bearer authorization) w) λ token w₁ h₁.
          let same₁ = ap view h₁.1 in
          bind _ _ _ _ _ w₁ (since view _ w w₁ _ same₁ (read_claims_lem token w₁)) λ claims w₂ h₂.
            let same₂ = h₂.2 ∙ same₁ in
            bind _ _ _ _ _ w₂
              (mapped _ _ as_unauthorized _ w₂ (
                since view _ w w₂ _ same₂
                  (from_result_same view (crypto.uuid_parse claims.user_id) w₂)))
              λ user_id w₃ h₃.
                let same₃ = ap view h₃.1 ∙ same₂ in
                let keys₃ =
                  ap keys h₃.1
                  ∙ ap keys h₂.1
                  ∙ parse_keeps token (hmac_key secret) w₁
                  ∙ ap keys h₁.1 in
                bind _ _ _ _ _ w₃ (since view _ w w₃ _ same₃ (check_session_lem token user_id w₃))
                  λ _ w₄ h₄. returned _ _ _ _ (
                    (
                      claims,
                      user_id,
                      (
                        token,
                        h₄.0.0,
                        bearer_lem authorization token h₁.0,
                        subst (IsAccepted token claims) h₁.1 h₂.0,
                        h₃.0,
                        live_since (session_key (crypto.uuid_string user_id)) h₄.0.0 w₃ w keys₃
                            h₄.0.1,
                        h₄.0.2,
                      ),
                      refl,
                    ),
                    h₄.1 ∙ same₃,
                  )

    judged :
        (authorization : Text) (c : Context) (w : W) (x : Result Context × W)
        → Ensures
            (λ c' w'. IsAdmitted authorization c w c' × (view w' ≡ view w))
            (λ _ w'. view w' ≡ view w)
            x
        → IsJudged authorization c w (verdict x)
    unfolding Ensures verdict
    judged authorization c w (ok c', w') q = q
    judged authorization c w (err e, w') q = elim (Bool-cases (is_error e unauthorized)) [
      | inl is ↦ rw is (inl refl, q)
      | inr is_not ↦ rw is_not (inr refl, q)
    ]

    -- Where parsing a token leaves the keys of Redis alone: in the world in which the middleware is
    -- asked, a request that is let through has a bearer token that the JWT library accepts with the
    -- secret, of a user whose session is live in Redis with a hash that answers to the token. The
    -- handlers after it find the user, the pseudonym and the role of the token's claims. Any other
    -- request is answered 401 or 500. No row changes.
    pub auth_handler-IsJudged :
        (authorization : Text) (c : Context) (w : W)
        → IsJudged authorization c w (auth_handler redis crypto secret authorization c w)
    unfolding auth_handler
    auth_handler-IsJudged authorization c w = judged _ _ _ _ (authenticate_lem authorization c w)
