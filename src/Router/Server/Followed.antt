-- ===== src/Router/Server/Followed.antt =====
-- Three routes of the table are those that Router follows from the header to the rows.
use echo_backend.Base.{◌≡◌, refl, subst, some, [], ◌∷◌}
use echo_backend.Text.{Text}
use echo_backend.Domain.{Post}
use echo_backend.Middleware.Gin.{Context, Verdict, next, abort}
use echo_backend.Middleware.Headers.{Headers}
use echo_backend.Middleware.Admin.{admin_handler}
use echo_backend.Middleware.Auth.{auth_handler}
use echo_backend.Middleware.RateLimit.{post_create}
use echo_backend.Middleware.RateLimit.Reads.{post_create-verdict}
use echo_backend.Handler.Answers.{IsAnswered}
use echo_backend.Router.{
  chain, delete_route, create_route, action_route, post_service, report_service,
}
use echo_backend.Handler.Errors.{Response}
use echo_backend.Handler.Posts as PostHandler
use echo_backend.Handler.Reports as ReportHandler
use echo_backend.Router.Shared.{rate_limits}
use echo_backend.Router.Routes.{
  authenticated, administrators, post_limit, delete_post, create_post, moderate,
}
use echo_backend.Router.Server.{
  Server, Body, Sent, answered, with_body, done_body, post_body, handle, guard, after_guard, pass,
}
use echo_backend.Router.Server.Ends.{IsSent, answered-IsSent}

module _ {W C : Type 0} (s : Server W C) (authorization body : Text) (response : Headers)
    (c : Context) (w : W) where
  abbrev pub sent : {A : Type 0} → (A → Body) → Response A × W → Sent × W
  sent to_body x = (answered (with_body to_body x.0) response, x.1)

  pub pass-delete_route :
      pass s (authenticated ∷ []) delete_post authorization body response c w
      ≡ sent done_body (
          delete_route s.auth
            (some s.broadcast)
            s.marshal_post
            authorization
            c
            (s.bindings.post_id body)
            w)
  unfolding pass guard handle delete_route chain
  pass-delete_route = go (auth_handler s.auth.redis s.auth.crypto s.auth.secret authorization c w)
    where
      go :
          (x : Verdict × W)
          → after_guard s
              (λ response c w. (
                answered (handle s delete_post body c w).0 response,
                (handle s delete_post body c w).1,
              ))
              ((x.0, response), x.1)
            ≡ sent done_body (
                chain x (
                  PostHandler.delete
                    (post_service s.auth (some s.broadcast) s.marshal_post)
                    s.auth.crypto.uuid_parse
                    (s.bindings.post_id body)))
      go (next c', w₁) = refl
      go (abort _ _ _, w₁) = refl

  -- The headers of a refusal are those of the limit.
  module _ (Q : Body → W → Type 0) (E : W → Type 0) where
    abbrev pub created : Context → W → Response Post × W
    created =
        PostHandler.create (post_service s.auth (some s.broadcast) s.marshal_post)
          s.auth.crypto.uuid_parse (s.bindings.create_post body)

    abbrev pub IsCreated : Response Post × W → Type 0
    IsCreated = IsAnswered (λ p w'. Q (post_body p) w') E

    limited_lem :
        (x : (Verdict × Headers) × W)
        → IsCreated (chain (x.0.0, x.1) created)
        → IsSent Q E (
            after_guard s
              (λ response c w.
                (answered (with_body post_body (created c w).0) response, (created c w).1))
              x)
    unfolding chain
    limited_lem ((next c', response), w₁) q =
        answered-IsSent Q E post_body response (created c' w₁) q
    limited_lem ((abort _ _ _, response), w₁) q = q

    pub pass-create_route :
        IsCreated (
          create_route s.auth
            (some s.broadcast)
            s.marshal_post
            s.store
            (rate_limits s.cfg)
            authorization
            c
            (s.bindings.create_post body)
            w)
        → IsSent Q E
            (pass s (authenticated ∷ post_limit ∷ []) create_post authorization body response c w)
    unfolding pass guard handle create_route chain
    pass-create_route = go (auth_handler s.auth.redis s.auth.crypto s.auth.secret authorization c w)
      where
        limit : Headers → Context → W → (Verdict × Headers) × W
        limit = post_create s.auth.sys s.store s.auth.crypto (rate_limits s.cfg) authorization

        go :
            (x : Verdict × W)
            → IsCreated
                (chain x (λ c' w'. chain ((limit [] c' w').0.0, (limit [] c' w').1) created))
            → IsSent Q E (
                after_guard s
                  (λ response c w.
                    after_guard s
                      (λ response c w.
                        (answered (with_body post_body (created c w).0) response, (created c w).1))
                      (limit response c w))
                  ((x.0, response), x.1))
        go (next c', w₁) q =
            let (verdict, left) =
              post_create-verdict s.auth.sys s.store s.auth.crypto (rate_limits s.cfg) authorization
                [] response c' w₁ in
            limited_lem (limit response c' w₁) (
              subst (λ (v : Verdict × W). IsCreated (chain v created)) (λ i. (verdict i, left i)) q)
        go (abort _ _ _, w₁) q = q

  pub pass-action_route :
      pass s (authenticated ∷ administrators ∷ []) moderate authorization body response c w
      ≡ sent done_body (
          action_route s.auth s.cfg.moderation.auto_hide_threshold authorization c
            (s.bindings.moderate body)
            w)
  unfolding pass guard handle action_route chain
  pass-action_route = go (auth_handler s.auth.redis s.auth.crypto s.auth.secret authorization c w)
    where
      moderated : Context → W → Response (Unit {0}) × W
      moderated c w =
          ReportHandler.action (report_service s.auth s.cfg.moderation.auto_hide_threshold)
            s.auth.crypto.uuid_parse (s.bindings.moderate body) c w

      gate :
          (v : Verdict) (w₁ : W)
          → after_guard s
              (λ response c w.
                (answered (with_body done_body (moderated c w).0) response, (moderated c w).1))
              ((v, response), w₁)
            ≡ sent done_body (chain (v, w₁) moderated)
      gate (next c') w₁ = refl
      gate (abort _ _ _) w₁ = refl

      go :
          (x : Verdict × W)
          → after_guard s
              (λ response c w.
                after_guard s
                  (λ response c w.
                    (answered (with_body done_body (moderated c w).0) response, (moderated c w).1))
                  ((admin_handler c, response), w))
              ((x.0, response), x.1)
            ≡ sent done_body (chain x (λ c' w'. chain (admin_handler c', w') moderated))
      go (next c', w₁) = gate (admin_handler c') w₁
      go (abort _ _ _, w₁) = refl
