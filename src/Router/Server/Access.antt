-- ===== src/Router/Server/Access.antt =====
-- Who may do what: the table of routes, its middleware and its handlers, against the rows.
use echo_backend.Base.{◌≡◌, refl, subst, Bool, true, Option, List, [], ◌∷◌, ◌⊎◌, All}
use echo_backend.Text.{Text, codes}
use echo_backend.Crypto.{Claims}
use echo_backend.Database.{Tables}
use echo_backend.Domain.{Uuid}
use echo_backend.Middleware.Gin.{Context}
use echo_backend.Middleware.Auth.Session.{IsLogin}
use echo_backend.Handler.Errors.{success, domain_error, validation_error}
use echo_backend.Middleware.Headers.{header}
use echo_backend.Router.Shared.{Request, shared}
use echo_backend.Router.Shared.Reads.{shared_reads}
use echo_backend.Router.Routes.{
  Guard, authenticated, administrators, Endpoint, check_health, register, refresh, get_post,
  create_post, delete_post, list_replies, create_reply, react, report, latest_feed, trending_feed,
  feed_socket, list_reports, moderate, Route, routes, private_post_routes,
}
use echo_backend.Router.Server.{Server, Sent, ended, answered, handle}
use echo_backend.Router.Server.Readings

-- What each endpoint is for: to read, to get a session, or to act as a user or as a moderator.
pub data Access : Type 0 where
  reading signing member moderator : Access

abbrev pub access_of : Endpoint → Access
access_of check_health = reading
access_of register = signing
access_of refresh = signing
access_of get_post = reading
access_of create_post = member
access_of delete_post = member
access_of list_replies = reading
access_of create_reply = member
access_of react = member
access_of report = member
access_of latest_feed = reading
access_of trending_feed = reading
access_of feed_socket = reading
access_of list_reports = moderator
access_of moderate = moderator

-- The middleware that each access asks for first.
abbrev pub HasFence : Access → List Guard → Type 0
HasFence reading guards = guards ≡ []
HasFence signing guards = guards ≡ []
HasFence member guards = (rest : List Guard) × (guards ≡ authenticated ∷ rest)
HasFence moderator guards = (rest : List Guard) × (guards ≡ authenticated ∷ administrators ∷ rest)

abbrev pub IsFenced : Route → Type 0
IsFenced route = HasFence (access_of route.endpoint) route.guards

pub routes-IsFenced : All IsFenced routes
unfolding routes private_post_routes
routes-IsFenced = (
  refl,
  (
    refl,
    (
      refl,
      (
        refl,
        (
          refl,
          (
            (_, refl),
            (
              (_, refl),
              (
                (_, refl),
                ((_, refl), ((_, refl), (refl, (refl, (refl, ((_, refl), ((_, refl), tt))))))),
              ),
            ),
          ),
        ),
      ),
    ),
  ),
)

-- No success was sent.
abbrev pub IsRefused : Sent → Type 0
IsRefused (ended _) = Unit
IsRefused (answered (success _ _) _) = ⊥
IsRefused (answered (domain_error _ _ _) _) = Unit
IsRefused (answered (validation_error _) _) = Unit

module _ {W C : Type 0} (s : Server W C) (view : W → Tables) (keys : W → Text → Option Text)
    (is_live : Claims → W → Bool) (h : Readings.IsServer s view keys is_live) where
  -- The world that the shared middleware leaves, in which that of the route is asked.
  abbrev pub reached : Request → W → W
  reached r w = (shared s.auth.sys s.store s.auth.crypto s.cfg r w).1

  -- The header of the request is a login of this user with these claims, in the world that the
  -- shared middleware leaves; the keys of Redis are those of the world that the request finds.
  abbrev pub HasLogin : Request → W → Claims → Uuid → Type 0
  HasLogin r w claims user_id =
      IsLogin s.auth.redis s.auth.crypto s.auth.secret keys view is_live
        (header r.headers (codes "Authorization")) claims user_id (reached r w)
      × (keys (reached r w) ≡ keys w)

  pub login_lem :
      (r : Request) (w w₁ : W) (claims : Claims) (user_id : Uuid)
      → w₁ ≡ reached r w
      → IsLogin s.auth.redis s.auth.crypto s.auth.secret keys view is_live
          (header r.headers (codes "Authorization"))
          claims
          user_id
          w₁
      → HasLogin r w claims user_id
  login_lem r w w₁ claims user_id arrived login = (
    subst
        (IsLogin s.auth.redis s.auth.crypto s.auth.secret keys view is_live
          (header r.headers (codes "Authorization")) claims user_id)
        arrived login,
    shared_reads s.auth.sys s.store s.auth.crypto s.cfg keys h.system_keeps h.exec_keeps r w,
  )

  -- What a request may do to the rows, and be answered.
  abbrev pub IsAuthorized : Access → Request → W → Sent × W → Type 0
  IsAuthorized reading r w x = view x.1 ≡ view w
  IsAuthorized signing r w x = Readings.IsUsersOnly s view keys is_live h w x.1
  IsAuthorized member r w x =
      (IsRefused x.0 × (view x.1 ≡ view w))
      ⊎ ((claims : Claims) × (user_id : Uuid) × HasLogin r w claims user_id)
  IsAuthorized moderator r w x =
      (IsRefused x.0 × (view x.1 ≡ view w))
      ⊎ ((claims : Claims) × (user_id : Uuid) × HasLogin r w claims user_id
          × (claims.is_admin ≡ true))

  -- What the handlers of an open endpoint leave.
  abbrev pub IsLeft : Access → W → W → Type 0
  IsLeft reading w w' = view w' ≡ view w
  IsLeft signing w w' = Readings.IsUsersOnly s view keys is_live h w w'
  IsLeft member w w' = Unit
  IsLeft moderator w w' = Unit

  module _ (body : Text) (c : Context) (w : W) where
    pub handle-IsLeft : (e : Endpoint) → IsLeft (access_of e) w (handle s e body c w).1
    unfolding handle
    handle-IsLeft check_health = Readings.check_reads s view keys is_live h w
    handle-IsLeft register = Readings.register_users s view keys is_live h w
    handle-IsLeft refresh = Readings.refresh_users s view keys is_live h w (s.bindings.refresh body)
    handle-IsLeft get_post =
        Readings.get_by_id_reads s view keys is_live h w (s.bindings.post_id body)
    handle-IsLeft create_post = tt
    handle-IsLeft delete_post = tt
    handle-IsLeft list_replies =
        Readings.list_replies_reads s view keys is_live h w (s.bindings.list_replies body)
    handle-IsLeft create_reply = tt
    handle-IsLeft react = tt
    handle-IsLeft report = tt
    handle-IsLeft latest_feed =
        Readings.latest_reads s view keys is_live h w (s.bindings.latest_feed body)
    handle-IsLeft trending_feed =
        Readings.trending_reads s view keys is_live h w (s.bindings.trending_feed body)
    handle-IsLeft feed_socket = Readings.feed_reads s view keys is_live h w
    handle-IsLeft list_reports = tt
    handle-IsLeft moderate = tt
