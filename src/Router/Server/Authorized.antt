-- ===== src/Router/Server/Authorized.antt =====
-- Each route of the table, from the request to the rows.
use echo_backend.Base.{
  ◌≡◌, ◌∙◌, refl, subst, ap, Bool, Bool-cases, true, false, ◌⊎◌, Option, List, inl, inr, Elem,
  Elem-All,
}
use echo_backend.Text.{Text, codes, text_eq}
use echo_backend.Crypto.{Claims}
use echo_backend.Database.{Tables}
use echo_backend.Domain.{Uuid}
use echo_backend.Middleware.Gin.{Context, Verdict, next, abort}
use echo_backend.Middleware.Headers.{Headers, header, has_text}
use echo_backend.Middleware.Admin.{admin_handler}
use echo_backend.Middleware.Auth.{auth_handler, stored}
use echo_backend.Middleware.Auth.Session.{IsLogin, IsJudged, auth_handler-IsJudged}
use echo_backend.Router.Shared.{Request, Answer, crashed, redirected, limited, preflight, handled}
use echo_backend.Router.Shared.Guarded.{IsGuarded, shared-IsGuarded}
use echo_backend.Router.Shared.Reads.{shared_reads}
use echo_backend.Router.Routes.{Guard, Endpoint, Route, routes}
use echo_backend.Router.Server.{
  Server, Sent, ended, handle, guard, after_guard, pass, after_shared, serve,
}
use echo_backend.Router.Moderate.{admin_handler-stored}
use echo_backend.Router.Server.Readings.{IsServer, IsUsersOnly}
use echo_backend.Router.Server.Access.{
  Access, reading, signing, member, moderator, access_of, HasFence, IsFenced, routes-IsFenced,
  IsRefused, reached, login_lem, IsAuthorized, IsLeft, handle-IsLeft,
}

module _ {W C : Type 0} (s : Server W C) (view : W → Tables) (keys : W → Text → Option Text)
    (is_live : Claims → W → Bool) (h : IsServer s view keys is_live) where
  abbrev Allowed : Access → Request → W → Sent × W → Type 0
  Allowed = IsAuthorized s view keys is_live h

  abbrev HeaderLogin : Text → Claims → Uuid → W → Type 0
  HeaderLogin = IsLogin s.auth.redis s.auth.crypto s.auth.secret keys view is_live

  -- What the middleware and the handlers of a route may do with this header, from this world on.
  abbrev Passed : Access → Text → W → Sent × W → Type 0
  Passed reading authorization w x = view x.1 ≡ view w
  Passed signing authorization w x = IsUsersOnly s view keys is_live h w x.1
  Passed member authorization w x =
      (IsRefused x.0 × (view x.1 ≡ view w))
      ⊎ ((claims : Claims) × (user_id : Uuid) × HeaderLogin authorization claims user_id w)
  Passed moderator authorization w x =
      (IsRefused x.0 × (view x.1 ≡ view w))
      ⊎ ((claims : Claims) × (user_id : Uuid) × HeaderLogin authorization claims user_id w
          × (claims.is_admin ≡ true))

  -- The middleware of sessions stands first: what follows it has a login.
  member_lem :
      (authorization : Text) (response : Headers) (c : Context) (w : W)
      (rest : Headers → Context → W → Sent × W) (x : Verdict × W)
      → IsJudged s.auth.redis s.auth.crypto s.auth.secret keys view is_live authorization c w x
      → Passed member authorization w (after_guard s rest ((x.0, response), x.1))
  member_lem authorization response c w rest (next c', w₁) ((claims, user_id, login, kept), same) =
      inr (claims, user_id, login)
  member_lem authorization response c w rest (abort _ _ _, w₁) (_, same) = inl (tt, same)

  -- With the gate for administrators behind it.
  gate_lem :
      (authorization : Text) (response : Headers) (c c' : Context) (w w₁ : W)
      (rest : Headers → Context → W → Sent × W) (claims : Claims) (user_id : Uuid)
      → HeaderLogin authorization claims user_id w
      → c' ≡ stored user_id claims.pseudonym claims.is_admin c
      → view w₁ ≡ view w
      → Passed moderator authorization w (after_guard s rest ((admin_handler c', response), w₁))
  gate_lem authorization response c c' w w₁ rest claims user_id login kept same =
      elim (Bool-cases claims.is_admin) [
        | inl admin ↦ inr (claims, user_id, login, admin)
        | inr other ↦
            rw (kept, other, admin_handler-stored user_id claims.pseudonym false c) (inl (tt, same))
      ]

  moderator_lem :
      (authorization : Text) (response : Headers) (c : Context) (w : W)
      (rest : Headers → Context → W → Sent × W) (x : Verdict × W)
      → IsJudged s.auth.redis s.auth.crypto s.auth.secret keys view is_live authorization c w x
      → Passed moderator authorization w (
          after_guard s
            (λ response c w. after_guard s rest ((admin_handler c, response), w))
            ((x.0, response), x.1))
  moderator_lem authorization response c w rest (next c', w₁)
        ((claims, user_id, login, kept), same) =
      gate_lem authorization response c c' w w₁ rest claims user_id login kept same
  moderator_lem authorization response c w rest (abort _ _ _, w₁) (_, same) = inl (tt, same)

  module _ (endpoint : Endpoint) (authorization body : Text) (response : Headers) (c : Context)
      (w : W) where
    judged :
        IsJudged s.auth.redis s.auth.crypto s.auth.secret keys view is_live authorization c w
          (auth_handler s.auth.redis s.auth.crypto s.auth.secret authorization c w)
    judged =
        auth_handler-IsJudged s.auth.redis s.auth.crypto s.auth.secret keys view is_live
          h.auth.sessions h.auth.crypto h.auth.parse_keeps authorization c w

    pass_lem :
        (access : Access) (guards : List Guard)
        → HasFence access guards
        → IsLeft s view keys is_live h access w (handle s endpoint body c w).1
        → Passed access authorization w (pass s guards endpoint authorization body response c w)
    unfolding pass guard
    pass_lem reading guards bare left = rw bare left
    pass_lem signing guards bare left = rw bare left
    pass_lem member guards (rest, fence) left =
        rw fence (member_lem authorization response c w _ _ judged)
    pass_lem moderator guards (rest, fence) left =
        rw fence (moderator_lem authorization response c w _ _ judged)

  module _ (route : Route) (r : Request) (body : Text) (w : W) where
    -- What passes in the world that the shared middleware leaves is allowed.
    Allowed-since :
        (access : Access) (w₁ : W) (x : Sent × W)
        → view w₁ ≡ view w
        → w₁ ≡ reached s view keys is_live h r w
        → Passed access (header r.headers (codes "Authorization")) w₁ x
        → Allowed access r w x
    Allowed-since reading w₁ x same arrived q = q ∙ same
    Allowed-since signing w₁ x same arrived (users, q) =
        (users, q ∙ ap (λ (t : Tables). record t { users = users }) same)
    Allowed-since member w₁ x same arrived (inl (refused, q)) = inl (refused, q ∙ same)
    Allowed-since member w₁ x same arrived (inr (claims, user_id, login)) =
        inr (claims, user_id, login_lem s view keys is_live h r w w₁ claims user_id arrived login)
    Allowed-since moderator w₁ x same arrived (inl (refused, q)) = inl (refused, q ∙ same)
    Allowed-since moderator w₁ x same arrived (inr (claims, user_id, login, admin)) = inr (
      claims,
      user_id,
      login_lem s view keys is_live h r w w₁ claims user_id arrived login,
      admin,
    )

    -- What the shared middleware answers by itself.
    Allowed-ended :
        (access : Access) (answer : Answer) (w₁ : W)
        → view w₁ ≡ view w
        → Allowed access r w (ended answer, w₁)
    Allowed-ended reading answer w₁ same = same
    Allowed-ended signing answer w₁ same = ((view w).users, same)
    Allowed-ended member answer w₁ same = inl (tt, same)
    Allowed-ended moderator answer w₁ same = inl (tt, same)

    after_shared_lem :
        (x : Answer × W)
        → IsFenced route
        → IsGuarded s.cfg r x.0
        → view x.1 ≡ view w
        → x.1 ≡ reached s view keys is_live h r w
        → Allowed (access_of route.endpoint) r w (after_shared s route body x)
    unfolding IsGuarded has_text text_eq
    after_shared_lem (crashed, w₁) fence good same arrived = absurd good
    after_shared_lem (redirected target response, w₁) fence good same arrived =
        Allowed-ended _ _ w₁ same
    after_shared_lem (limited _ _ _ _, w₁) fence good same arrived = Allowed-ended _ _ w₁ same
    after_shared_lem (preflight _, w₁) fence good same arrived = Allowed-ended _ _ w₁ same
    after_shared_lem (handled headers c response, w₁) fence good same arrived =
        Allowed-since (access_of route.endpoint) w₁ _ same arrived (
          subst
            (λ authorization. Passed (access_of route.endpoint) authorization w₁ (
              pass s route.guards route.endpoint (header headers (codes "Authorization")) body
                response c w₁))
            (good.2 (codes "Authorization"))
            (pass_lem route.endpoint (header headers (codes "Authorization")) body response c w₁
              (access_of route.endpoint) route.guards fence
              (handle-IsLeft s view keys is_live h body c w₁ route.endpoint)))

    -- Where the clock, the pipelines of Redis and the parsing of a token leave the sessions in
    -- Redis alone: for a request to any route of the table: the health check, the single post, the
    -- lists of replies, the two feeds and the socket change no row, whatever is sent; registering
    -- and refreshing change at most the users. The other routes are those of users and moderators:
    -- either they change no row and no success is sent, or the request has the session of a user:
    -- its `Authorization` header has a token that is accepted, and the session that the user has in
    -- Redis answers to it, both when the shared middleware has let the request pass, which leaves
    -- the keys of Redis as the request found them. The token says that the user is an administrator
    -- if the route is one that lists or decides reports.
    pub serve-IsAuthorized :
        Elem route routes → Allowed (access_of route.endpoint) r w (serve s route r body w)
    unfolding serve
    serve-IsAuthorized member_of =
        after_shared_lem _ (Elem-All IsFenced route routes routes-IsFenced member_of)
          (shared-IsGuarded s.auth.sys s.store s.auth.crypto s.cfg r w)
          (shared_reads s.auth.sys s.store s.auth.crypto s.cfg view h.auth.system h.exec_reads r w)
          refl
