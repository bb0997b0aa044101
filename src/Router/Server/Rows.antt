-- ===== src/Router/Server/Rows.antt =====
-- Three routes of the table, from the request to the rows.
use echo_backend.Base.{◌≡◌, ◌∙◌, refl, Bool, true, Option, some, Elem, inl}
use echo_backend.Text.{Text, codes}
use echo_backend.Crypto.{Claims}
use echo_backend.Database.{Tables}
use echo_backend.Domain.{Uuid, Post}
use echo_backend.Middleware.Headers.{header}
use echo_backend.Handler.Answers.{IsAnswered-mono}
use echo_backend.Router.{delete_route, create_route, action_route}
use echo_backend.Middleware.Auth.Session.{IsLogin}
use echo_backend.Router.Delete.{IsNamed, IsDeleted, delete_route-own}
use echo_backend.Router.Publish.{IsAsked, IsPublished, create_route-published}
use echo_backend.Router.Moderate.{IsDecided, IsUndecided, action_route-admin}
use echo_backend.Router.Shared.{Request, rate_limits}
use echo_backend.Router.Routes.{Route, routes, guards-guards_of, delete_post, create_post, moderate}
use echo_backend.Router.Server.{Server, Body, done_body, post_body, serve}
use echo_backend.Router.Server.Readings.{IsServer}
use echo_backend.Router.Server.Access.{reached, HasLogin, login_lem}
use echo_backend.Router.Server.Ends.{IsSent, answered-IsSent, serve-IsSent}
use echo_backend.Router.Server.Followed.{pass-delete_route, pass-create_route, pass-action_route}

IsPublished-since :
    {W : Type 0} (view : W → Tables) (author_id : Uuid) (pseudonym : Text) (p : Post) (w w₁ w₂ : W)
    → view w₁ ≡ view w
    → IsPublished view author_id pseudonym w₁ p w₂
    → IsPublished view author_id pseudonym w p w₂
unfolding IsPublished
IsPublished-since view author_id pseudonym p w w₁ w₂ same q = rw same at q

module _ {W C : Type 0} (s : Server W C) (view : W → Tables) (keys : W → Text → Option Text)
    (is_live : Claims → W → Bool) (h : IsServer s view keys is_live) (route : Route) (r : Request)
    (body : Text) (w : W) where
  abbrev Unchanged : W → Type 0
  Unchanged w' = view w' ≡ view w

  abbrev Arrived : W → Type 0
  Arrived w₁ = w₁ ≡ reached s view keys is_live h r w

  abbrev authorization : Text
  authorization = header r.headers (codes "Authorization")

  -- The header of the request is a login of this user with these claims.
  abbrev pub IsFrom : Claims → Uuid → Type 0
  IsFrom = HasLogin s view keys is_live h r w

  from :
      (w₁ : W) (claims : Claims) (user_id : Uuid)
      → Arrived w₁
      → IsLogin s.auth.redis s.auth.crypto s.auth.secret keys view is_live authorization claims
          user_id w₁
      → IsFrom claims user_id
  from w₁ claims user_id = login_lem s view keys is_live h r w w₁ claims user_id

  -- What a success has done, with its body.
  abbrev pub HasDeleted : Body → W → Type 0
  HasDeleted _ w' =
      (claims : Claims) × (user_id : Uuid) × (post_id : Uuid) × IsFrom claims user_id
      × IsNamed s.auth view keys is_live h.auth (some s.broadcast) s.marshal_post
          (s.bindings.post_id body) post_id
      × IsDeleted view user_id post_id w w'

  abbrev pub HasPublished : Body → W → Type 0
  HasPublished b w' =
      (p : Post) × (claims : Claims) × (user_id : Uuid) × (b ≡ post_body p)
      × IsFrom claims user_id
      × IsAsked (s.bindings.create_post body) p
      × IsPublished view user_id claims.pseudonym w p w'

  abbrev pub HasDecided : Body → W → Type 0
  HasDecided _ w' =
      (claims : Claims) × (admin_id : Uuid) × IsFrom claims admin_id
      × (claims.is_admin ≡ true)
      × IsDecided s.auth view keys is_live h.auth s.cfg.moderation.auto_hide_threshold
          (s.bindings.moderate body) admin_id w w'

  abbrev Left : W → Type 0
  Left w' = IsUndecided s.auth view keys is_live h.auth s.cfg.moderation.auto_hide_threshold w w'

  -- Where the clock, the pipelines of Redis and the parsing of a token leave the sessions in Redis
  -- alone: for a request to the route `POST /posts/delete`, through the shared middleware and that
  -- of the route: a success came with the session of a user: the `Authorization` header has a token
  -- that is accepted, and the session that the user has in Redis answers to it, both when the
  -- shared middleware has let the request pass, which leaves the keys of Redis as the request found
  -- them. The user had a visible post with the identifier of the request, and that user's posts
  -- with that identifier are removed, with their replies, reactions and reports. Anything else that
  -- is sent left every row as it was.
  pub serve-IsDeleted :
      Elem route routes
      → route.endpoint ≡ delete_post
      → IsSent HasDeleted (λ w'. view w' ≡ view w) (serve s route r body w)
  serve-IsDeleted listed named =
      serve-IsSent s view keys is_live h route r body w HasDeleted Unchanged (λ w₁ same. same)
        λ response c w₁ same arrived.
          rw (guards-guards_of route delete_post listed named, named)
            (rw (pass-delete_route s authorization body response c w₁) (
              answered-IsSent HasDeleted Unchanged done_body response _ (
                IsAnswered-mono _ (λ w'. view w' ≡ view w₁) (λ a w'. HasDeleted (done_body a) w')
                  Unchanged
                  (delete_route s.auth (some s.broadcast) s.marshal_post authorization c
                    (s.bindings.post_id body) w₁)
                  (delete_route-own s.auth view keys is_live h.auth (some s.broadcast)
                    s.marshal_post authorization c (s.bindings.post_id body) w₁)
                  (λ _ w₂ q. (q.0, q.1, q.2, from w₁ q.0 q.1 arrived q.3, q.4, rw same at q.5))
                  (λ w₂ q. q ∙ same))))

  -- Where announcements and the pipelines of Redis leave the rows alone, and the clock, the
  -- pipelines and the parsing of a token leave the sessions in Redis alone: for a request to the
  -- route `POST /posts`, through the shared middleware and both of the route: a success came with
  -- the session of a user: the `Authorization` header has a token that is accepted, and the session
  -- that the user has in Redis answers to it, both when the shared middleware has let the request
  -- pass, which leaves the keys of Redis as the request found them. Its body is the post, which is
  -- one more row and the only change: it has that user as its author, the pseudonym of the token
  -- and the content of the request, trimmed, of 1 to 280 bytes, no reply and a score of 0, and is
  -- visible. Anything else that is sent, the refusals of both rate limits included, left every row
  -- as it was.
  pub serve-IsPublished :
      Elem route routes
      → route.endpoint ≡ create_post
      → IsSent HasPublished (λ w'. view w' ≡ view w) (serve s route r body w)
  serve-IsPublished listed named =
      serve-IsSent s view keys is_live h route r body w HasPublished Unchanged (λ w₁ same. same)
        λ response c w₁ same arrived.
          rw (guards-guards_of route create_post listed named, named)
            (pass-create_route s authorization body response c w₁ HasPublished Unchanged (
              IsAnswered-mono _ (λ w'. view w' ≡ view w₁) (λ p w'. HasPublished (post_body p) w')
                Unchanged
                (create_route s.auth (some s.broadcast) s.marshal_post s.store (rate_limits s.cfg)
                  authorization c (s.bindings.create_post body) w₁)
                (create_route-published s.auth view keys is_live h.auth (some s.broadcast)
                  s.marshal_post h.broadcast_reads s.store (rate_limits s.cfg) h.exec_reads
                  authorization c (s.bindings.create_post body) w₁)
                (λ p w₂ q. (
                  p,
                  q.0,
                  q.1,
                  refl,
                  from w₁ q.0 q.1 arrived q.2,
                  q.3,
                  IsPublished-since view q.1 q.0.pseudonym p w w₁ w₂ same q.4,
                ))
                (λ w₂ q. q ∙ same)))

  -- Where the clock, the pipelines of Redis and the parsing of a token leave the sessions in Redis
  -- alone: for a request to the route `POST /admin/reports/action`, through the shared middleware
  -- and that of the route: a success came with the session of a user: the `Authorization` header
  -- has a token that is accepted, and the session that the user has in Redis answers to it, both
  -- when the shared middleware has let the request pass, which leaves the keys of Redis as the
  -- request found them. The token says that the user is an administrator. The success is a decision
  -- of that user, as the request asks: to dismiss, hide or ban, on the report that the request
  -- names, which was open and is resolved by it, with the post hidden if the action is to hide or
  -- to ban. Anything else that is sent left every row as it was, or at most hid a post.
  pub serve-IsModeration :
      Elem route routes
      → route.endpoint ≡ moderate
      → IsSent HasDecided Left (serve s route r body w)
  serve-IsModeration listed named =
      serve-IsSent s view keys is_live h route r body w HasDecided Left (λ w₁ same. inl same)
        λ response c w₁ same arrived.
          rw (guards-guards_of route moderate listed named, named)
            (rw (pass-action_route s authorization body response c w₁) (
              answered-IsSent HasDecided Left done_body response _ (
                IsAnswered-mono _ _ (λ a w'. HasDecided (done_body a) w') Left
                  (action_route s.auth s.cfg.moderation.auto_hide_threshold authorization c
                    (s.bindings.moderate body) w₁)
                  (action_route-admin s.auth view keys is_live h.auth
                    s.cfg.moderation.auto_hide_threshold authorization c (s.bindings.moderate body)
                    w₁)
                  (λ _ w₂ q. (q.0, q.1, from w₁ q.0 q.1 arrived q.2, q.3, rw same at q.4))
                  (λ w₂ q. rw same at q))))
