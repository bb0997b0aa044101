-- ===== src/Router/Server/Ends.antt =====
-- What is sent for a request to one route, and what holds of the world that it leaves.
use echo_backend.Base.{◌≡◌, refl, sym, subst, Bool, Option}
use echo_backend.Text.{Text, codes, text_eq}
use echo_backend.Crypto.{Claims}
use echo_backend.Database.{Tables}
use echo_backend.Middleware.Gin.{Context}
use echo_backend.Middleware.Headers.{Headers, header, has_text}
use echo_backend.Handler.Errors.{Response, success, domain_error, validation_error}
use echo_backend.Handler.Answers.{IsAnswered}
use echo_backend.Router.Shared.{Request, Answer, crashed, redirected, limited, preflight, handled}
use echo_backend.Router.Shared.Guarded.{IsGuarded, shared-IsGuarded}
use echo_backend.Router.Shared.Reads.{shared_reads}
use echo_backend.Router.Routes.{Route}
use echo_backend.Router.Server.{
  Server, Body, Sent, ended, answered, with_body, pass, after_shared, serve,
}
use echo_backend.Router.Server.Readings.{IsServer}
use echo_backend.Router.Server.Access.{reached}

module _ {W : Type 0} (Q : Body → W → Type 0) (E : W → Type 0) where
  -- `Q` of the body after a success, and `E` after anything else.
  abbrev pub IsSent : Sent × W → Type 0
  IsSent (ended _, w) = E w
  IsSent (answered (success _ b) _, w) = Q b w
  IsSent (answered (domain_error _ _ _) _, w) = E w
  IsSent (answered (validation_error _) _, w) = E w

  pub answered-IsSent :
      {A : Type 0} (body : A → Body) (response : Headers) (x : Response A × W)
      → IsAnswered (λ a w. Q (body a) w) E x
      → IsSent (answered (with_body body x.0) response, x.1)
  answered-IsSent body response (success status a, w) q = q
  answered-IsSent body response (domain_error _ _ _, w) q = q
  answered-IsSent body response (validation_error _, w) q = q

module _ {W C : Type 0} (s : Server W C) (view : W → Tables) (keys : W → Text → Option Text)
    (is_live : Claims → W → Bool) (h : IsServer s view keys is_live) (route : Route) (r : Request)
    (body : Text) (w : W) where
  module _ (Q : Body → W → Type 0) (E : W → Type 0) (e : (w₁ : W) → view w₁ ≡ view w → E w₁)
      (rest : (response : Headers) (c : Context) (w₁ : W)
        → view w₁ ≡ view w
        → w₁ ≡ reached s view keys is_live h r w
        → IsSent Q E (
            pass s route.guards route.endpoint
              (header r.headers (codes "Authorization"))
              body
              response
              c
              w₁)) where
    after_shared-IsSent :
        (x : Answer × W)
        → IsGuarded s.cfg r x.0
        → view x.1 ≡ view w
        → x.1 ≡ reached s view keys is_live h r w
        → IsSent Q E (after_shared s route body x)
    unfolding IsGuarded has_text text_eq
    after_shared-IsSent (crashed, w₁) good same arrived = absurd good
    after_shared-IsSent (redirected _ _, w₁) good same arrived = e w₁ same
    after_shared-IsSent (limited _ _ _ _, w₁) good same arrived = e w₁ same
    after_shared-IsSent (preflight _, w₁) good same arrived = e w₁ same
    after_shared-IsSent (handled headers c response, w₁) good same arrived =
        subst
          (λ authorization.
            IsSent Q E (pass s route.guards route.endpoint authorization body response c w₁))
          (sym (good.2 (codes "Authorization"))) (rest response c w₁ same arrived)

    -- A request that passes the shared middleware leaves the rows and the header as they were.
    pub serve-IsSent : IsSent Q E (serve s route r body w)
    unfolding serve
    serve-IsSent =
        after_shared-IsSent _ (shared-IsGuarded s.auth.sys s.store s.auth.crypto s.cfg r w)
          (shared_reads s.auth.sys s.store s.auth.crypto s.cfg view h.auth.system h.exec_reads r w)
          refl
