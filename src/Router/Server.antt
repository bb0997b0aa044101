-- ===== src/Router/Server.antt =====
-- cmd/server/main.go: the server that `run` puts together. A request passes the shared middleware,
-- that of its route, and the handler of its route.
pub mod Readings
pub mod Access
pub mod Authorized
pub mod Blind
pub mod Ends
pub mod Followed
pub mod Rows
pub mod Members
pub mod Replies
pub mod Reports
use echo_backend.Base.{Bool, some, List, [], ◌∷◌}
use echo_backend.Text.{Text, codes}
use echo_backend.Errors.{Result}
use echo_backend.Effect.{M}
use echo_backend.Domain.{Time, Post, Reply, Uuid}
use echo_backend.SortedSets.{SortedSets}
use echo_backend.Config.{Config}
use echo_backend.Service.Auth.{AuthService}
use echo_backend.Service.Auth as AuthLogic
use echo_backend.Service.Feeds as FeedLogic
use echo_backend.Middleware.Gin.{Context, Verdict, next, abort}
use echo_backend.Middleware.Headers.{Headers, header}
use echo_backend.Middleware.Auth.{auth_handler}
use echo_backend.Middleware.Admin.{admin_handler}
use echo_backend.Middleware.RateLimit.{post_create}
use echo_backend.Handler.Errors.{Response, success, domain_error, validation_error, Binding}
use echo_backend.Handler.Services.{PostService, ReportService, FeedService, SessionService}
use echo_backend.Handler.Health.{Health, check}
use echo_backend.Handler.Posts.{
  CreatePostRequest, PostIdRequest, ReactRequest, CreateReplyRequest, ListRepliesRequest,
}
use echo_backend.Handler.Posts as PostHandler
use echo_backend.Handler.Reports.{
  CreateReportRequest, ModerateRequest, ListReportsRequest, ReportView,
}
use echo_backend.Handler.Reports as ReportHandler
use echo_backend.Handler.Sessions.{RefreshRequest}
use echo_backend.Handler.Sessions as SessionHandler
use echo_backend.Handler.Feeds.{LatestFeedRequest, TrendingFeedRequest}
use echo_backend.Handler.Feeds as FeedHandler
use echo_backend.Hub.Client.{Client}
use echo_backend.Handler.Websocket.{feed}
use echo_backend.Router.{post_service, report_service}
use echo_backend.Router.Shared.{
  Request, Answer, crashed, redirected, limited, preflight, handled, rate_limits, shared,
}
use echo_backend.Router.Routes.{
  Guard, authenticated, administrators, post_limit, Endpoint, check_health, register, refresh,
  get_post, create_post, delete_post, list_replies, create_reply, react, report, latest_feed,
  trending_feed, feed_socket, list_reports, moderate, Route,
}

-- `c.ShouldBindJSON` for the types of the requests, which is gin's.
pub record Bindings : Type 0 where
  pub refresh : Text → Binding RefreshRequest
  pub create_post : Text → Binding CreatePostRequest
  pub post_id : Text → Binding PostIdRequest
  pub react : Text → Binding ReactRequest
  pub create_reply : Text → Binding CreateReplyRequest
  pub list_replies : Text → Binding ListRepliesRequest
  pub create_report : Text → Binding CreateReportRequest
  pub list_reports : Text → Binding ListReportsRequest
  pub moderate : Text → Binding ModerateRequest
  pub latest_feed : Text → Binding LatestFeedRequest
  pub trending_feed : Text → Binding TrendingFeedRequest

-- What `run` hands to the services, the handlers and the middleware, and what they call of other
-- packages: JSON, the formats of times, the pings, the upgrade of a connection, and the hub.
pub record Server (W C : Type 0) : Type 1 where
  pub cfg : Config
  pub auth : AuthService W
  pub store : SortedSets W
  pub bindings : Bindings
  pub broadcast : Text → W → W
  pub marshal_post : Post → Result Text
  pub marshal_posts : List Post → Result Text
  pub unmarshal_posts : Text → Result (List Post)
  pub format_cursor : Time → Text
  pub parse_cursor : Text → Result Time
  pub format_report : Time → Text
  pub open_pool : M W (Unit {0})
  pub ping_db : M W (Unit {0})
  pub ping_redis : M W (Unit {0})
  pub upgrade : M W C
  pub hub_register : Client C → W → W
  pub go_write : Client C → W → W
  pub go_read : Client C → W → W

-- The values whose JSON is a body.
pub data Body : Type 0 where
  health_body : Health → Body
  session_body : Text × Text → Body
  token_body : Text → Body
  post_body : Post → Body
  reply_body : Reply → Body
  replies_body : List Reply → Body
  posts_body : List Post → Body
  page_body : List Post × Text → Body
  reported_body : Bool → Body
  reports_body : List ReportView → Body
  done_body : Unit {0} → Body

abbrev pub with_body : {A : Type 0} → (A → Body) → Response A → Response Body
with_body body (success status a) = success status (body a)
with_body body (domain_error status error code) = domain_error status error code
with_body body (validation_error fields) = validation_error fields

abbrev pub embody : {W A : Type 0} → (A → Body) → Response A × W → Response Body × W
embody body x = (with_body body x.0, x.1)

-- What is sent: the answer of the shared middleware, or a response with its headers.
pub data Sent : Type 0 where
  ended : Answer → Sent
  answered : Response Body → Headers → Sent

module _ {W C : Type 0} (s : Server W C) where
  unfoldable pub session_service : SessionService W
  session_service = record {
    register = AuthLogic.register s.auth;
    refresh = AuthLogic.refresh s.auth;
  }

  unfoldable pub feed_service : FeedService W
  feed_service = record {
    latest = FeedLogic.latest s.auth.db;
    trending = FeedLogic.trending s.auth.db s.auth.redis s.marshal_posts s.unmarshal_posts;
  }

  abbrev pub posts : PostService W
  posts = post_service s.auth (some s.broadcast) s.marshal_post

  abbrev pub reports : ReportService W
  reports = report_service s.auth s.cfg.moderation.auto_hide_threshold

  -- The handler that a route names, on the body of the request. The status and the body of a health
  -- check are given whole, also where the status is 503.
  unfoldable pub handle : Endpoint → Text → Context → W → Response Body × W
  unfolding session_service feed_service
  handle check_health body c w =
      let ((status, health), w') = check s.open_pool s.ping_db s.ping_redis w in
      (success status (health_body health), w')
  handle register body c w = embody session_body (SessionHandler.register session_service w)
  handle refresh body c w =
      embody token_body (SessionHandler.refresh session_service (s.bindings.refresh body) w)
  handle get_post body c w =
      embody post_body
        (PostHandler.get_by_id posts s.auth.crypto.uuid_parse (s.bindings.post_id body) w)
  handle create_post body c w =
      embody post_body
        (PostHandler.create posts s.auth.crypto.uuid_parse (s.bindings.create_post body) c w)
  handle delete_post body c w =
      embody done_body
        (PostHandler.delete posts s.auth.crypto.uuid_parse (s.bindings.post_id body) c w)
  handle list_replies body c w =
      embody replies_body
        (PostHandler.list_replies posts s.auth.crypto.uuid_parse (s.bindings.list_replies body) w)
  handle create_reply body c w =
      embody reply_body
        (PostHandler.create_reply posts s.auth.crypto.uuid_parse (s.bindings.create_reply body) c w)
  handle react body c w =
      embody done_body
        (PostHandler.react posts s.auth.crypto.uuid_parse (s.bindings.react body) c w)
  handle report body c w =
      embody reported_body
        (ReportHandler.create reports s.auth.crypto.uuid_parse (s.bindings.create_report body) c w)
  handle latest_feed body c w = embody page_body (
      FeedHandler.latest feed_service s.format_cursor s.parse_cursor (s.bindings.latest_feed body)
        w)
  handle trending_feed body c w =
      embody posts_body (FeedHandler.trending feed_service (s.bindings.trending_feed body) w)
  handle feed_socket body c w =
      embody done_body (feed s.upgrade s.hub_register s.go_write s.go_read w)
  handle list_reports body c w = embody reports_body (
      ReportHandler.list_reports reports s.auth.crypto.uuid_parse s.format_report
        (s.bindings.list_reports body) w)
  handle moderate body c w =
      embody done_body
        (ReportHandler.action reports s.auth.crypto.uuid_parse (s.bindings.moderate body) c w)

  -- One middleware of a route, on the headers of the response so far.
  unfoldable pub guard : Guard → Text → Headers → Context → W → (Verdict × Headers) × W
  guard authenticated authorization response c w =
      let (verdict, w') = auth_handler s.auth.redis s.auth.crypto s.auth.secret authorization c w in
      ((verdict, response), w')
  guard administrators authorization response c w = ((admin_handler c, response), w)
  guard post_limit authorization response c w =
      post_create s.auth.sys s.store s.auth.crypto (rate_limits s.cfg) authorization response c w

  -- What follows a middleware, unless it ends the request.
  abbrev pub after_guard : (Headers → Context → W → Sent × W) → (Verdict × Headers) × W → Sent × W
  after_guard rest ((next c, response), w) = rest response c w
  after_guard rest ((abort status error code, response), w) =
      (answered (domain_error status error code) response, w)

  -- The middleware of a route, and then its handler.
  unfoldable pub pass : List Guard → Endpoint → Text → Text → Headers → Context → W → Sent × W
  unfolding handle guard
  pass [] endpoint authorization body response c w =
      let (answer, w') = handle endpoint body c w in (answered answer response, w')
  pass (g ∷ guards) endpoint authorization body response c w =
      after_guard (pass guards endpoint authorization body) (guard g authorization response c w)

  abbrev pub after_shared : Route → Text → Answer × W → Sent × W
  after_shared route body (crashed, w) = (ended crashed, w)
  after_shared route body (redirected target response, w) = (ended (redirected target response), w)
  after_shared route body (limited status error code response, w) =
      (ended (limited status error code response), w)
  after_shared route body (preflight response, w) = (ended (preflight response), w)
  after_shared route body (handled headers c response, w) =
      pass route.guards route.endpoint (header headers (codes "Authorization")) body response c w

  -- A request to a route, with its body.
  unfoldable pub serve : Route → Request → Text → W → Sent × W
  unfolding pass
  serve route r body w = after_shared route body (shared s.auth.sys s.store s.auth.crypto s.cfg r w)
