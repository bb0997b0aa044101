-- ===== src/Handler/Answers.antt =====
-- What a response to a call promises of the world that it leaves.
use echo_backend.Base.{ℕ, Bool, ◌≡◌, refl}
use echo_backend.Text.{Text, text_eq}
use echo_backend.Errors.{Result, ok, err}
use echo_backend.Effect.{M, Ensures}
use echo_backend.Domain.{Uuid}
use echo_backend.Middleware.Gin.{Context, get}
use echo_backend.Middleware.Auth.{stored}
use echo_backend.Handler.Errors.{
  Response, success, domain_error, validation_error, Binding, bound, unbound, respond, with_request,
  write_domain_error, write_validation_error,
}
use echo_backend.Handler.Request.{user_of}

-- What an answer promises of the world: `Q` if it is a success, `E` if not.
abbrev pub IsAnswered : {W A : Type 0} → (A → W → Type 0) → (W → Type 0) → Response A × W → Type 0
IsAnswered Q E (success _ x, w) = Q x w
IsAnswered Q E (domain_error _ _ _, w) = E w
IsAnswered Q E (validation_error _, w) = E w

module _ {W A : Type 0} (Q : A → W → Type 0) (E : W → Type 0) where
  pub respond_lem :
      (status : ℕ) (m : M W A) (w : W)
      → Ensures Q (λ _ w'. E w') (m w)
      → IsAnswered Q E (respond status (λ x. x) m w)
  unfolding respond Ensures write_domain_error
  respond_lem status m w h = go (m w) h
    where
      go :
          (x : Result A × W)
          → Ensures Q (λ _ w'. E w') x
          → IsAnswered Q E (
              let (r, w') = x in
              elim r [ ok a ↦ (success status a, w') | err e ↦ (write_domain_error e, w') ])
      go (ok a, w') q = q
      go (err e, w') q = q

  pub with_request_lem :
      {Req : Type 0} (binding : Binding Req) (handle : Req → W → Response A × W) (w : W)
      → E w
      → ((req : Req) → binding ≡ bound req → IsAnswered Q E (handle req w))
      → IsAnswered Q E (with_request binding handle w)
  unfolding with_request write_validation_error
  with_request_lem (bound req) handle w e h = h req refl
  with_request_lem (unbound errors) handle w e h = e

  pub IsAnswered-mono :
      (Q' : A → W → Type 0) (E' : W → Type 0) (x : Response A × W)
      → IsAnswered Q E x
      → ((a : A) (w : W) → Q a w → Q' a w)
      → ((w : W) → E w → E' w)
      → IsAnswered Q' E' x
  IsAnswered-mono Q' E' (success _ a, w) h q e = q a w h
  IsAnswered-mono Q' E' (domain_error _ _ _, w) h q e = e w h
  IsAnswered-mono Q' E' (validation_error _, w) h q e = e w h

-- The user whom the middleware stores is the one whom the handlers find.
pub user_of-stored :
    (user_id : Uuid) (pseudonym : Text) (is_admin : Bool) (c : Context)
    → user_of (stored user_id pseudonym is_admin c) ≡ ok user_id
unfolding user_of get text_eq
user_of-stored user_id pseudonym is_admin c = refl
