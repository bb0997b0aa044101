-- ===== src/Router/Routes.antt =====
-- The table of routes: the `Register` functions of internal/handler and their groups in
-- cmd/server/main.go. How gin finds the route of a request in the table is left out.
use echo_backend.Base.{◌≡◌, ◌∙◌, refl, ap, All, Elem, Elem-All, List, [], ◌∷◌, ◌++◌, map}
use echo_backend.Text.{Text, codes}

-- The middleware of a group or of a route.
pub data Guard : Type 0 where
  authenticated administrators post_limit : Guard

-- The handlers.
pub data Endpoint : Type 0 where
  check_health : Endpoint
  register refresh : Endpoint
  get_post create_post delete_post : Endpoint
  list_replies create_reply : Endpoint
  react report : Endpoint
  latest_feed trending_feed : Endpoint
  feed_socket : Endpoint
  list_reports moderate : Endpoint

pub record Route : Type 0 where
  pub method : Text
  pub path : Text
  pub guards : List Guard
  pub endpoint : Endpoint

abbrev pub post : Text → List Guard → Endpoint → Route
post path guards endpoint = record {
  method = codes "POST";
  path = path;
  guards = guards;
  endpoint = endpoint;
}

abbrev pub get : Text → Endpoint → Route
get path endpoint = record { method = codes "GET"; path = path; guards = []; endpoint = endpoint }

-- `router.Group(prefix)`, with `Use(guards)`, and what registers on it.
abbrev pub within : Text → List Guard → Route → Route
within prefix guards r = record r { path = prefix ++ r.path; guards = guards ++ r.guards }

abbrev pub group : Text → List Guard → List Route → List Route
group prefix guards routes = map (within prefix guards) routes

abbrev pub health_routes : List Route
health_routes = get (codes "/health") check_health ∷ []

abbrev pub auth_routes : List Route
auth_routes = post (codes "/register") [] register ∷ post (codes "/refresh") [] refresh ∷ []

abbrev pub public_post_routes : List Route
public_post_routes = post (codes "/get") [] get_post ∷ []

-- Without middleware of its own, `create` is registered alone.
unfoldable pub private_post_routes : List Guard → List Route
private_post_routes [] = post [] [] create_post ∷ post (codes "/delete") [] delete_post ∷ []
private_post_routes (g ∷ create_middleware) =
    post [] (g ∷ create_middleware) create_post ∷ post (codes "/delete") [] delete_post ∷ []

abbrev pub public_reply_routes : List Route
public_reply_routes = post (codes "/replies/list") [] list_replies ∷ []

abbrev pub private_reply_routes : List Route
private_reply_routes = post (codes "/replies/create") [] create_reply ∷ []

abbrev pub reaction_routes : List Route
reaction_routes = post (codes "/react") [] react ∷ []

abbrev pub report_routes : List Route
report_routes = post (codes "/report") [] report ∷ []

abbrev pub feed_routes : List Route
feed_routes = post (codes "/latest") [] latest_feed ∷ post (codes "/trending") [] trending_feed ∷ []

abbrev pub socket_routes : List Route
socket_routes = get (codes "/feed") feed_socket ∷ []

abbrev pub admin_routes : List Route
admin_routes =
    post (codes "/reports/list") [] list_reports ∷ post (codes "/reports/action") [] moderate ∷ []

-- The calls of `run`, in their order.
unfoldable pub routes : List Route
unfolding private_post_routes
routes =
    health_routes
    ++ group (codes "/auth") [] auth_routes
    ++ group (codes "/posts") [] (public_post_routes ++ public_reply_routes)
    ++ group (codes "/posts") (authenticated ∷ []) (
        private_post_routes (post_limit ∷ [])
        ++ private_reply_routes
        ++ reaction_routes
        ++ report_routes)
    ++ group (codes "/feed") [] feed_routes
    ++ group (codes "/ws") [] socket_routes
    ++ group (codes "/admin") (authenticated ∷ administrators ∷ []) admin_routes

-- The middleware that each endpoint has by its group and its registration.
abbrev pub guards_of : Endpoint → List Guard
guards_of check_health = []
guards_of register = []
guards_of refresh = []
guards_of get_post = []
guards_of create_post = authenticated ∷ post_limit ∷ []
guards_of delete_post = authenticated ∷ []
guards_of list_replies = []
guards_of create_reply = authenticated ∷ []
guards_of react = authenticated ∷ []
guards_of report = authenticated ∷ []
guards_of latest_feed = []
guards_of trending_feed = []
guards_of feed_socket = []
guards_of list_reports = authenticated ∷ administrators ∷ []
guards_of moderate = authenticated ∷ administrators ∷ []

pub routes-guards_of : All (λ r. r.guards ≡ guards_of r.endpoint) routes
unfolding routes private_post_routes
routes-guards_of = (
  refl,
  (
    refl,
    (
      refl,
      (
        refl,
        (refl, (refl, (refl, (refl, (refl, (refl, (refl, (refl, (refl, (refl, (refl, tt))))))))))),
      ),
    ),
  ),
)

pub guards-guards_of :
    (route : Route) (e : Endpoint)
    → Elem route routes
    → route.endpoint ≡ e
    → route.guards ≡ guards_of e
guards-guards_of route e m same =
    Elem-All (λ r. r.guards ≡ guards_of r.endpoint) route routes routes-guards_of m
    ∙ ap guards_of same
