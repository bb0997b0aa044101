-- ===== src/Router.antt =====
-- The wiring of cmd/server/main.go: the services behind their interfaces, and three of the routes
-- that ask for a session, from the header on. Server has a request through all of its route.
pub mod Routes
pub mod Shared
pub mod Publish
pub mod Delete
pub mod Moderate
pub mod Server
use echo_backend.Base.{Option, []}
use echo_backend.Base.Int.{ℤ}
use echo_backend.Text.{Text}
use echo_backend.Errors.{Result}
use echo_backend.Domain.{Uuid, Post}
use echo_backend.Service.Auth.{AuthService}
use echo_backend.Service.Posts
use echo_backend.Service.Reports
use echo_backend.Middleware.Gin.{Context, Verdict, next, abort}
use echo_backend.Middleware.Auth.{auth_handler}
use echo_backend.Middleware.Admin.{admin_handler}
use echo_backend.SortedSets.{SortedSets}
use echo_backend.Middleware.RateLimit.{RateLimit, post_create}
use echo_backend.Handler.Errors.{Response, domain_error, Binding}
use echo_backend.Handler.Services.{PostService, ReportService}
use echo_backend.Handler.Posts.{CreatePostRequest, PostIdRequest}
use echo_backend.Handler.Reports.{ModerateRequest}
use echo_backend.Handler.Posts as PostHandler
use echo_backend.Handler.Reports as ReportHandler

-- A handler after a middleware.
unfoldable pub chain :
    {W A : Type 0} → Verdict × W → (Context → W → Response A × W) → Response A × W
chain (next c, w) handle = handle c w
chain (abort status error code, w) handle = (domain_error status error code, w)

module _ {W : Type 0} (a : AuthService W) where
  unfoldable pub post_service : Option (Text → W → W) → (Post → Result Text) → PostService W
  post_service broadcaster marshal = record {
    create = Posts.create broadcaster marshal a.db a.sys;
    delete = Posts.delete a.db;
    get_by_id = Posts.get_by_id a.db;
    react = Posts.react a.db;
    create_reply = Posts.create_reply a.db a.sys;
    list_replies = Posts.list_replies a.db;
  }

  unfoldable pub report_service : ℤ → ReportService W
  report_service threshold = record {
    create = λ post_id reporter_id reason.
        Reports.create a.db a.sys post_id reporter_id reason threshold;
    list_open = Reports.list_open a.db;
    act = Reports.act a.db a.sys a.redis a.crypto.uuid_string;
  }

  -- `POST /posts/delete`
  unfoldable pub delete_route :
      Option (Text → W → W)
      → (Post → Result Text)
      → Text
      → Context
      → Binding PostIdRequest
      → W
      → Response (Unit {0}) × W
  unfolding post_service
  delete_route broadcaster marshal authorization c binding w =
      chain (auth_handler a.redis a.crypto a.secret authorization c w)
        (PostHandler.delete (post_service broadcaster marshal) a.crypto.uuid_parse binding)

  -- `POST /posts`. The headers that the limit adds to its refusal are left out.
  unfoldable pub create_route :
      Option (Text → W → W)
      → (Post → Result Text)
      → SortedSets W
      → RateLimit
      → Text
      → Context
      → Binding CreatePostRequest
      → W
      → Response Post × W
  unfolding post_service
  create_route broadcaster marshal store limits authorization c binding w =
      chain (auth_handler a.redis a.crypto a.secret authorization c w) (λ c' w'.
        let ((verdict, _), w'') = post_create a.sys store a.crypto limits authorization [] c' w' in
        chain (verdict, w'')
          (PostHandler.create (post_service broadcaster marshal) a.crypto.uuid_parse binding))

  -- `POST /admin/reports/action`
  unfoldable pub action_route :
      ℤ → Text → Context → Binding ModerateRequest → W → Response (Unit {0}) × W
  unfolding report_service
  action_route threshold authorization c binding w =
      chain (auth_handler a.redis a.crypto a.secret authorization c w) (λ c' w'.
        chain (admin_handler c', w')
          (ReportHandler.action (report_service threshold) a.crypto.uuid_parse binding))
