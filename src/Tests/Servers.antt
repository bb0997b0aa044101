-- ===== src/Tests/Servers.antt =====
-- The whole server in memory, and the theorems on it at a concrete request.
use echo_backend.Base.{ℕ, ◌≡◌, refl, inl, inr, [], ◌∷◌, ◌++◌}
use echo_backend.Text.{codes, text_eq, is_empty}
use echo_backend.Errors.{ok, err, failure, is_error}
use echo_backend.Effect.{pure, fail, ◌>>=◌}
use echo_backend.System.{IsSystem}
use echo_backend.Middleware.Auth.{auth_handler, verdict, authenticate, bearer}
use echo_backend.Domain.{hide}
use echo_backend.Handler.Errors.{bound, unbound, domain_error}
use echo_backend.Middleware.Headers.{put, del, has_text, header}
use echo_backend.Router.Shared.{Request}
use echo_backend.Router.Routes.{
  Route, authenticated, administrators, post_limit, delete_post, create_post, moderate, routes,
  private_post_routes,
}
use echo_backend.Router.Server.{Server, Bindings, answered, pass, guard, serve}
use echo_backend.Router.Server.Readings.{IsServer}
use echo_backend.Router.Server.Access.{member, IsAuthorized}
use echo_backend.Router.Server.Authorized.{serve-IsAuthorized}
use echo_backend.Router.Server.Ends.{IsSent}
use echo_backend.Router.Server.Rows.{
  HasDeleted, HasPublished, HasDecided, serve-IsDeleted, serve-IsPublished, serve-IsModeration,
}
use echo_backend.Router.Moderate.{IsUndecided}
use echo_backend.Router.Server.Blind.{serve-blind}
use echo_backend.Tests.World.{World, view, live_keys, system_keeps}
use echo_backend.Tests.Ciphers.{auth, auth-IsAuth, is_live}
use echo_backend.Tests.Routes.{office, authorization, counter, counter_reads, counter_keeps}
use echo_backend.Tests.Stack.{cfg}

-- A body is the identifier of a post or of a report to hide its post, or the content of a post, or
-- the text for post 1.
abbrev id_bindings : Bindings
id_bindings = record {
  refresh = λ _. unbound [];
  create_post = λ body. bound (record { content = body });
  post_id = λ body. bound (record { id = body });
  react = λ _. unbound [];
  create_reply = λ body. bound (record { post_id = 1 ∷ []; content = body });
  list_replies = λ _. unbound [];
  create_report = λ body. bound (record { post_id = 1 ∷ []; reason = body });
  list_reports = λ _. unbound [];
  moderate = λ body. bound (record { report_id = body; action = hide; note = codes "spam" });
  latest_feed = λ _. unbound [];
  trending_feed = λ _. unbound [];
}

abbrev pub server : Server World ℕ
server = record {
  cfg = cfg;
  auth = auth;
  store = counter;
  bindings = id_bindings;
  broadcast = λ _ w. w;
  marshal_post = λ p. ok p.content;
  marshal_posts = λ _. ok [];
  unmarshal_posts = λ _. err (failure (codes "unexpected end of JSON input"));
  format_cursor = λ _. [];
  parse_cursor = λ _. err (failure (codes "cannot parse"));
  format_report = λ _. [];
  open_pool = pure tt;
  ping_db = pure tt;
  ping_redis = pure tt;
  upgrade = fail (failure (codes "not a websocket handshake"));
  hub_register = λ _ w. w;
  go_write = λ _ w. w;
  go_read = λ _ w. w;
}

server_system_keeps : IsSystem live_keys auth.sys
unfolding auth
server_system_keeps = system_keeps

pub server-IsServer : IsServer server view live_keys is_live
server-IsServer = record {
  auth = auth-IsAuth;
  exec_reads = counter_reads;
  exec_keeps = counter_keeps;
  system_keeps = server_system_keeps;
  broadcast_reads = λ _ _. refl;
  open_pool_reads = λ _. refl;
  ping_db_reads = λ _. refl;
  ping_redis_reads = λ _. refl;
  upgrade_reads = λ _. refl;
  hub_register_reads = λ _ _. refl;
  go_write_reads = λ _ _. refl;
  go_read_reads = λ _ _. refl;
}

abbrev delete_route : Route
delete_route = record {
  method = codes "POST";
  path = codes "/posts/delete";
  guards = authenticated ∷ [];
  endpoint = delete_post;
}

abbrev pub deletion : Request
deletion = record {
  method = codes "POST";
  request_uri = codes "/posts/delete";
  redirect_target = λ host. codes "https://" ++ host ++ codes "/posts/delete";
  headers =
      (codes "X-Forwarded-Proto", codes "https") ∷ (codes "Authorization", authorization) ∷ [];
}

serve-IsAuthorized_example :
    IsAuthorized server view live_keys is_live server-IsServer member deletion office
      (serve server delete_route deletion (1 ∷ []) office)
unfolding routes private_post_routes text_eq header
serve-IsAuthorized_example =
    serve-IsAuthorized server view live_keys is_live server-IsServer delete_route deletion (1 ∷ [])
      office (inr (inr (inr (inr (inr (inr (inl refl)))))))

serve-blind_example :
    (serve server delete_route
        (record deletion { headers = put (codes "X-Real-Ip") (codes "10.0.0.1") deletion.headers })
        (1 ∷ [])
        office
      ≡ serve server delete_route deletion (1 ∷ []) office)
    × (serve server delete_route
          (record deletion { headers = del (codes "X-Real-Ip") deletion.headers })
          (1 ∷ [])
          office
        ≡ serve server delete_route deletion (1 ∷ []) office)
unfolding has_text text_eq
serve-blind_example =
    serve-blind server delete_route deletion (1 ∷ []) office (codes "X-Real-Ip") (codes "10.0.0.1")
      refl

-- A request without a session, past the shared middleware.
turned_away :
    (pass server (authenticated ∷ []) delete_post [] (1 ∷ []) [] [] office).0
    ≡ answered (domain_error 401 (codes "unauthorized") (codes "ERR_UNAUTHORIZED")) []
unfolding pass guard auth_handler verdict authenticate ◌>>=◌ bearer is_empty is_error
turned_away = refl

abbrev create_route : Route
create_route = record {
  method = codes "POST";
  path = codes "/posts";
  guards = authenticated ∷ post_limit ∷ [];
  endpoint = create_post;
}

abbrev action_route : Route
action_route = record {
  method = codes "POST";
  path = codes "/admin/reports/action";
  guards = authenticated ∷ administrators ∷ [];
  endpoint = moderate;
}

serve-IsDeleted_example :
    IsSent
      (HasDeleted server view live_keys is_live server-IsServer delete_route deletion
        (1 ∷ [])
        office)
      (λ w'. view w' ≡ view office)
      (serve server delete_route deletion (1 ∷ []) office)
unfolding routes private_post_routes
serve-IsDeleted_example =
    serve-IsDeleted server view live_keys is_live server-IsServer delete_route deletion (1 ∷ [])
      office (inr (inr (inr (inr (inr (inr (inl refl))))))) refl

serve-IsPublished_example :
    IsSent
      (HasPublished server view live_keys is_live server-IsServer create_route deletion
        (codes " hello ")
        office)
      (λ w'. view w' ≡ view office)
      (serve server create_route deletion (codes " hello ") office)
unfolding routes private_post_routes
serve-IsPublished_example =
    serve-IsPublished server view live_keys is_live server-IsServer create_route deletion
      (codes " hello ") office (inr (inr (inr (inr (inr (inl refl)))))) refl

serve-IsModeration_example :
    IsSent
      (HasDecided server view live_keys is_live server-IsServer action_route deletion
        (2 ∷ [])
        office)
      (IsUndecided auth view live_keys is_live auth-IsAuth server.cfg.moderation.auto_hide_threshold
        office)
      (serve server action_route deletion (2 ∷ []) office)
unfolding routes private_post_routes
serve-IsModeration_example =
    serve-IsModeration server view live_keys is_live server-IsServer action_route deletion (2 ∷ [])
      office
      (inr (inr (inr (inr (inr (inr (inr (inr (inr (inr (inr (inr (inr (inr (inl refl)))))))))))))))
      refl
