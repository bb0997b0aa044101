-- ===== src/Tests/Requests.antt =====
-- A reply and a report, through the whole server in memory.
use echo_backend.Base.{◌≡◌, refl, inl, inr, [], ◌∷◌}
use echo_backend.Text.{codes}
use echo_backend.Router.Routes.{
  Route, authenticated, create_reply, report, routes, private_post_routes,
}
use echo_backend.Router.Server.{serve}
use echo_backend.Router.Server.Ends.{IsSent}
use echo_backend.Router.Server.Replies.{HasReplied, serve-IsReplied}
use echo_backend.Router.Server.Reports.{HasReported, serve-IsReported}
use echo_backend.Tests.World.{view, live_keys}
use echo_backend.Tests.Ciphers.{is_live}
use echo_backend.Tests.Routes.{office}
use echo_backend.Tests.Servers.{server, server-IsServer, deletion}

abbrev reply_route : Route
reply_route = record {
  method = codes "POST";
  path = codes "/posts/replies/create";
  guards = authenticated ∷ [];
  endpoint = create_reply;
}

abbrev report_route : Route
report_route = record {
  method = codes "POST";
  path = codes "/posts/report";
  guards = authenticated ∷ [];
  endpoint = report;
}

serve-IsReplied_example :
    IsSent
      (HasReplied server view live_keys is_live server-IsServer reply_route deletion
        (codes "hello ")
        office)
      (λ w'. view w' ≡ view office)
      (serve server reply_route deletion (codes "hello ") office)
unfolding routes private_post_routes
serve-IsReplied_example =
    serve-IsReplied server view live_keys is_live server-IsServer reply_route deletion
      (codes "hello ") office (inr (inr (inr (inr (inr (inr (inr (inl refl)))))))) refl

serve-IsReported_example :
    IsSent
      (HasReported server view live_keys is_live server-IsServer report_route deletion
        (codes "spam")
        office)
      (λ w'. view w' ≡ view office)
      (serve server report_route deletion (codes "spam") office)
unfolding routes private_post_routes
serve-IsReported_example =
    serve-IsReported server view live_keys is_live server-IsServer report_route deletion
      (codes "spam") office (inr (inr (inr (inr (inr (inr (inr (inr (inr (inl refl)))))))))) refl
