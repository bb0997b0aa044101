-- ===== src/Router/Server/Reports.antt =====
-- `POST /posts/report`, from the request to the rows.
use echo_backend.Base.{◌≡◌, ◌∙◌, refl, Bool, false, true, Option, Elem, ◌+◌, ◌≤◌}
use echo_backend.Text.{Text, trim_space, is_empty, len}
use echo_backend.Errors.{ok}
use echo_backend.Effect.Rules.{bind, Ensures-mono, mapped, from_result_lem}
use echo_backend.Crypto.{Claims}
use echo_backend.Database.{Tables}
use echo_backend.Database.Laws.{since}
use echo_backend.Domain.{Uuid, Time, Post}
use echo_backend.Repository.Reports.Rows.{reports_of, is_reached, reported}
use echo_backend.Repository.Posts.Rows.{visible_by_id}
use echo_backend.Service.Reports.Create.{filed, create-reported}
use echo_backend.Middleware.Gin.{Context}
use echo_backend.Middleware.Auth.{stored}
use echo_backend.Handler.Errors.{Binding, bound}
use echo_backend.Handler.Answers.{
  IsAnswered, IsAnswered-mono, respond_lem, with_request_lem, user_of-stored,
}
use echo_backend.Handler.Request.{user_of, as_invalid}
use echo_backend.Handler.Reports.{CreateReportRequest, create}
use echo_backend.Router.{report_service}
use echo_backend.Router.Shared.{Request}
use echo_backend.Router.Routes.{Route, routes, report}
use echo_backend.Router.Server.{Server, Body, reported_body, reports, handle, serve}
use echo_backend.Router.Server.Readings.{IsServer}
use echo_backend.Router.Server.Access.{HasLogin}
use echo_backend.Router.Server.Ends.{IsSent, answered-IsSent}
use echo_backend.Router.Server.Members.{serve-member}

module _ {W C : Type 0} (s : Server W C) (view : W → Tables) (keys : W → Text → Option Text)
    (is_live : Claims → W → Bool) (h : IsServer s view keys is_live) where
  -- What a report has done: the one that the request asks for, by this user.
  abbrev pub IsReported : Binding CreateReportRequest → Uuid → W → Bool → W → Type 0
  IsReported binding user_id w hidden w' =
      (req : CreateReportRequest) × (post_id : Uuid) × (binding ≡ bound req)
      × (s.auth.crypto.uuid_parse req.post_id ≡ ok post_id)
      × (is_empty (trim_space req.reason) ≡ false)
      × (len (trim_space req.reason) ≤ 500)
      × ((p : Post) × Elem p (view w).posts × (visible_by_id post_id p ≡ true))
      × (hidden ≡ is_reached s.cfg.moderation.auto_hide_threshold (reports_of post_id (view w) + 1))
      × ((id : Uuid) × (at : Time) × (view w'
            ≡ reported (filed id at post_id user_id req.reason) hidden (view w)))

  create_handler_lem :
      (binding : Binding CreateReportRequest) (c : Context) (user_id : Uuid) (w : W)
      → user_of c ≡ ok user_id
      → IsAnswered
          (λ hidden w'. IsReported binding user_id w hidden w')
          (λ w'. view w' ≡ view w)
          (create (reports s) s.auth.crypto.uuid_parse binding c w)
  unfolding create report_service
  create_handler_lem binding c user_id w e = with_request_lem _ _ binding _ w refl λ req made.
      respond_lem _ _ 201 _ w (
        bind _ _ _ _ _ w
          (mapped _ _ as_invalid _ w
            (from_result_lem view (s.auth.crypto.uuid_parse req.post_id) w))
          λ post_id w₁ h₁.
            bind _ _ _ _ _ w₁ (since view _ w w₁ _ h₁.1 (from_result_lem view (user_of c) w₁))
              λ u w₂ h₂.
                let same = h₂.1 ∙ h₁.1 in
                let is_user : u ≡ user_id = cc in
                since view _ w w₂ _ same (
                  Ensures-mono _ _ _ _ _
                    (create-reported s.auth.db s.auth.sys view h.auth.database h.auth.system post_id
                      u req.reason s.cfg.moderation.auto_hide_threshold w₂)
                    (λ hidden w₃ q.
                      let (some_byte, fits, shown, told, row) = rw (same, is_user) at q in
                      (req, post_id, made, h₁.0, some_byte, fits, shown, told, row))
                    (λ e w₃ q. q)))

  module _ (route : Route) (r : Request) (body : Text) (w : W) where
    -- A success that tells whether the post was hidden, of the user who is logged in.
    abbrev pub HasReported : Body → W → Type 0
    HasReported b w' =
        (hidden : Bool) × (claims : Claims) × (user_id : Uuid) × (b ≡ reported_body hidden)
        × HasLogin s view keys is_live h r w claims user_id
        × IsReported (s.bindings.create_report body) user_id w hidden w'

    -- Where the clock, the pipelines of Redis and the parsing of a token leave the sessions in
    -- Redis alone: for a request to the route `POST /posts/report`, through the shared middleware
    -- and that of the route: a success came with the session of a user: the `Authorization` header
    -- has a token that is accepted, and the session that the user has in Redis answers to it, both
    -- when the shared middleware has let the request pass, which leaves the keys of Redis as the
    -- request found them. A report by that user is stored as open: of the post that the request
    -- names, which is visible, for the reason of the request, trimmed, of 1 to 500 bytes. The post
    -- is hidden exactly if the threshold of the configuration is positive and the post now has as
    -- many reports, and the body tells whether it is; no other row changes. Anything else that is
    -- sent left every row as it was.
    pub serve-IsReported :
        Elem route routes
        → route.endpoint ≡ report
        → IsSent HasReported (λ w'. view w' ≡ view w) (serve s route r body w)
    unfolding handle
    serve-IsReported listed named =
        serve-member s view keys is_live h HasReported (λ w'. view w' ≡ view w) report route r body
          w listed named refl (λ w₁ same. same)
          λ claims user_id c response w₁ login same.
            answered-IsSent HasReported (λ w'. view w' ≡ view w) reported_body response
              (create (reports s) s.auth.crypto.uuid_parse (s.bindings.create_report body)
                (stored user_id claims.pseudonym claims.is_admin c) w₁)
              (IsAnswered-mono _ (λ w'. view w' ≡ view w₁)
                (λ a w'. HasReported (reported_body a) w') (λ w'. view w' ≡ view w) _
                (create_handler_lem (s.bindings.create_report body)
                  (stored user_id claims.pseudonym claims.is_admin c) user_id w₁
                  (user_of-stored user_id claims.pseudonym claims.is_admin c))
                (λ hidden w₂ q. (hidden, claims, user_id, refl, login, rw same at q))
                (λ w₂ q. q ∙ same))
