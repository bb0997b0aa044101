-- ===== src/Middleware/Auth/Registered.antt =====
-- internal/middleware/auth.go lets the token in that internal/service/auth.go has just given out.
use echo_backend.Base.{◌≡◌, ◌∙◌, refl, ap, Bool, true, false, Option, some}
use echo_backend.Text.{Text, codes, is_empty, trim_space, equal_fold, split_space}
use echo_backend.Errors.{Error, Result, ok}
use echo_backend.Effect.{Ensures}
use echo_backend.Crypto.{Claims}
use echo_backend.Database.{Tables}
use echo_backend.Domain.{Uuid, Time, User}
use echo_backend.Repository.Users.Rows.{with_user}
use echo_backend.Service.Reports.{session_key}
use echo_backend.Service.Auth.{AuthService, hmac_key, register, add_duration}
use echo_backend.Service.Auth.Session.{IsAuth, IsSigned, Answers, HasSession, new_user}
use echo_backend.Service.Auth.Register.{register-session}
use echo_backend.Middleware.Gin.{Context}
use echo_backend.Middleware.Auth.{stored, auth_handler}
use echo_backend.Middleware.Auth.Login.{IsEntered, session_answer, auth_handler-admits}

-- What holds after a call that returned.
returned_lem :
    {W A : Type 0} (Q : A → W → Type 0) (E : Error → W → Type 0) (x : Result A × W) (a : A) (w : W)
    → Ensures Q E x
    → x ≡ (ok a, w)
    → Q a w
unfolding Ensures
returned_lem Q E x a w h e = rw e at h

module _ {W : Type 0} (a : AuthService W) (view : W → Tables) (keys : W → Text → Option Text)
    (is_live : Claims → W → Bool) (h : IsAuth a view keys is_live)
    (uuid_text : (u : Uuid) → is_empty (trim_space (a.crypto.uuid_string u)) ≡ false)
    (authorization scheme token : Text) (c : Context) (w : W) where
  -- The request has the token, which is live by the clock.
  abbrev IsLive : Type 0
  IsLive =
      (claims : Claims) → a.crypto.jwt_sign a.secret claims ≡ ok token → is_live claims w ≡ true

  entered_lem :
      (user_id : Uuid) (pseudonym hash : Text) (is_admin : Bool) (expires_at : Time)
      → split_space authorization ≡ some (scheme, token)
      → equal_fold scheme (codes "Bearer") ≡ true
      → IsLive
      → is_empty (trim_space pseudonym) ≡ false
      → IsSigned a user_id pseudonym is_admin expires_at token
      → HasSession a keys user_id hash w
      → Answers a hash token
      → IsEntered
          (session_answer a user_id token w)
          (stored user_id pseudonym is_admin c)
          (auth_handler a.redis a.crypto a.secret authorization c w)
  entered_lem user_id pseudonym hash is_admin expires_at split folds live name_text
        (issued_at, signed) session answers =
      auth_handler-admits a view keys is_live h user_id pseudonym is_admin expires_at issued_at
        token hash authorization scheme c w split folds signed (live _ signed) (uuid_text user_id)
        name_text
        (ap (λ (f : Text → Option Text). f (session_key (a.crypto.uuid_string user_id)))
            (h.parse_keeps token (hmac_key a.secret) w)
          ∙ session)
        answers

  -- Where parsing a token leaves the keys of Redis alone and the text of no UUID is blank: a
  -- registration that succeeded has added one user, who is no administrator and has the pseudonym
  -- that it returned. If that is not blank, a request that brings the returned token next, while it
  -- is live by the clock, goes on as that user, with that pseudonym and as no administrator, if the
  -- call of Redis for the session returns; if the call fails, the request is answered 500.
  pub register-IsEntered :
      (pseudonym : Text) (w₀ : W)
      → register a w₀ ≡ (ok (token, pseudonym), w)
      → split_space authorization ≡ some (scheme, token)
      → equal_fold scheme (codes "Bearer") ≡ true
      → IsLive
      → is_empty (trim_space pseudonym) ≡ false
      → (u : User) × (view w ≡ with_user u (view w₀))
        × (u.pseudonym ≡ pseudonym)
        × (u.is_admin ≡ false)
        × IsEntered
            (session_answer a u.id token w)
            (stored u.id pseudonym false c)
            (auth_handler a.redis a.crypto a.secret authorization c w)
  register-IsEntered pseudonym w₀ made split folds live name_text =
      let (user_id, now, hash, signed, answers, some_text, row, session) =
        returned_lem _ _ (register a w₀) (token, pseudonym) w
          (register-session a view keys is_live h w₀) made in
      (
        new_user user_id pseudonym hash now (add_duration now a.ttl),
        row,
        refl,
        refl,
        entered_lem user_id pseudonym hash false (add_duration now a.ttl) split folds live name_text
            signed session answers,
      )
