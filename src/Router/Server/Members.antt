-- ===== src/Router/Server/Members.antt =====
-- The routes that ask for a session alone, from the request to their handler.
use echo_backend.Base.{◌≡◌, ◌∙◌, Bool, Option, [], ◌∷◌, Elem}
use echo_backend.Text.{Text, codes}
use echo_backend.Crypto.{Claims}
use echo_backend.Database.{Tables}
use echo_backend.Domain.{Uuid}
use echo_backend.Middleware.Gin.{Context, Verdict, next, abort}
use echo_backend.Middleware.Headers.{Headers, header}
use echo_backend.Middleware.Auth.{auth_handler, stored}
use echo_backend.Middleware.Auth.Session.{IsLogin, IsJudged, auth_handler-IsJudged}
use echo_backend.Router.Shared.{Request}
use echo_backend.Router.Routes.{Route, Endpoint, routes, guards-guards_of, guards_of, authenticated}
use echo_backend.Router.Server.{Server, Body, answered, handle, guard, after_guard, pass, serve}
use echo_backend.Router.Server.Readings.{IsServer}
use echo_backend.Router.Server.Access.{HasLogin, login_lem}
use echo_backend.Router.Server.Ends.{IsSent, serve-IsSent}

module _ {W C : Type 0} (s : Server W C) (view : W → Tables) (keys : W → Text → Option Text)
    (is_live : Claims → W → Bool) (h : IsServer s view keys is_live) where
  -- A route that asks for a session alone hands the user of the session to its handler.
  pass-member :
      (Q : Body → W → Type 0) (E : W → Type 0) (e : Endpoint) (authorization body : Text)
      (response : Headers) (c : Context) (w : W)
      → ((w₁ : W) → view w₁ ≡ view w → E w₁)
      → ((claims : Claims) (user_id : Uuid) (w₁ : W)
          → IsLogin s.auth.redis s.auth.crypto s.auth.secret keys view is_live authorization claims
              user_id w
          → view w₁ ≡ view w
          → IsSent Q E (
              let (answer, w₂) =
                handle s e body (stored user_id claims.pseudonym claims.is_admin c) w₁ in
              (answered answer response, w₂)))
      → IsSent Q E (pass s (authenticated ∷ []) e authorization body response c w)
  unfolding pass guard
  pass-member Q E e authorization body response c w refused entered =
      go (auth_handler s.auth.redis s.auth.crypto s.auth.secret authorization c w) (
        auth_handler-IsJudged s.auth.redis s.auth.crypto s.auth.secret keys view is_live
          h.auth.sessions h.auth.crypto h.auth.parse_keeps authorization c w)
    where
      go :
          (x : Verdict × W)
          → IsJudged s.auth.redis s.auth.crypto s.auth.secret keys view is_live authorization c w x
          → IsSent Q E (
              after_guard s
                (λ response c w.
                  let (answer, w₂) = handle s e body c w in (answered answer response, w₂))
                ((x.0, response), x.1))
      go (next c', w₁) ((claims, user_id, login, kept), same) =
          rw kept (entered claims user_id w₁ login same)
      go (abort _ _ _, w₁) (_, same) = refused w₁ same

  -- From the request on, for a route that asks for a session alone.
  pub serve-member :
      (Q : Body → W → Type 0) (E : W → Type 0) (e : Endpoint) (route : Route) (r : Request)
      (body : Text) (w : W)
      → Elem route routes
      → route.endpoint ≡ e
      → guards_of e ≡ authenticated ∷ []
      → ((w₁ : W) → view w₁ ≡ view w → E w₁)
      → ((claims : Claims) (user_id : Uuid) (c : Context) (response : Headers) (w₁ : W)
          → HasLogin s view keys is_live h r w claims user_id
          → view w₁ ≡ view w
          → IsSent Q E (
              let (answer, w₂) =
                handle s e body (stored user_id claims.pseudonym claims.is_admin c) w₁ in
              (answered answer response, w₂)))
      → IsSent Q E (serve s route r body w)
  serve-member Q E e route r body w listed named alone refused entered =
      serve-IsSent s view keys is_live h route r body w Q E refused λ response c w₁ same arrived.
        rw (guards-guards_of route e listed named, alone, named)
          (pass-member Q E e (header r.headers (codes "Authorization")) body response c w₁
            (λ w₂ same₂. refused w₂ (same₂ ∙ same))
            (λ claims user_id w₂ login same₂.
              entered claims user_id c response w₂
                (login_lem s view keys is_live h r w w₁ claims user_id arrived login)
                (same₂ ∙ same)))
