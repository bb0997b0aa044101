-- ===== src/Handler/Reports.antt =====
-- internal/handler/report.go and admin.go
use echo_backend.Base.{Bool, Option, List, map, if◌then◌else◌}
use echo_backend.Base.Int.{ℤ, pos, ltb_ℤ}
use echo_backend.Text.{Text}
use echo_backend.Errors.{Result, ok, err}
use echo_backend.Effect.{◌>>=◌, map_error, from_result}
use echo_backend.Domain.{Uuid, Time, Report, ReportStatus, ModerationAction}
use echo_backend.Middleware.Gin.{Context}
use echo_backend.Handler.Errors.{Response, Binding, respond, with_request, write_domain_error}
use echo_backend.Handler.Services.{ReportService}
use echo_backend.Handler.Request.{user_of, as_invalid, page_limit}
use mathlib.Core.Option

pub record CreateReportRequest : Type 0 where
  pub post_id : Text
  pub reason : Text

pub record ModerateRequest : Type 0 where
  pub report_id : Text
  pub action : ModerationAction
  pub note : Text

pub record ListReportsRequest : Type 0 where
  pub limit : ℤ
  pub offset : ℤ

pub record ReportView : Type 0 where
  pub id : Uuid
  pub post_id : Uuid
  pub reason : Text
  pub status : ReportStatus
  pub action : ModerationAction
  pub action_note : Text
  pub reviewed_by : Option Uuid
  pub reviewed_at : Option Text
  pub created_at : Text

-- `t.UTC().Format(...)` is a parameter.
unfoldable pub to_report_view : (Time → Text) → Report → ReportView
to_report_view format report = record {
  id = report.id;
  post_id = report.post_id;
  reason = report.reason;
  status = report.status;
  action = report.action;
  action_note = report.action_note;
  reviewed_by = report.reviewed_by;
  reviewed_at = Option.map format report.reviewed_at;
  created_at = format report.created_at;
}

module _ {W : Type 0} (reports : ReportService W) (uuid_parse : Text → Result Uuid) where
  -- The body tells whether the post was hidden.
  unfoldable pub create : Binding CreateReportRequest → Context → W → Response Bool × W
  unfolding user_of
  create binding c = with_request binding λ req.
      respond 201 (λ auto_hidden. auto_hidden)
        (do
          post_id ← map_error as_invalid (from_result (uuid_parse req.post_id))
          user_id ← from_result (user_of c)
          reports.create post_id user_id req.reason)

  unfoldable pub list_reports :
      (Time → Text) → Binding ListReportsRequest → W → Response (List ReportView) × W
  unfolding to_report_view
  list_reports format binding = with_request binding λ req.
      respond 200 (map (to_report_view format)) (
        reports.list_open (page_limit req.limit)
          (if ltb_ℤ (pos 0) req.offset then req.offset else pos 0))

  -- The request of a moderator, who is looked up first.
  unfoldable pub act_as : Result Uuid → Binding ModerateRequest → W → Response (Unit {0}) × W
  unfolding write_domain_error
  act_as (err e) binding w = (write_domain_error e, w)
  act_as (ok admin_id) binding w =
      with_request binding
        (λ req.
          respond 200 (λ done. done)
            (do
              report_id ← map_error as_invalid (from_result (uuid_parse req.report_id))
              reports.act admin_id report_id req.action req.note))
        w

  unfoldable pub action : Binding ModerateRequest → Context → W → Response (Unit {0}) × W
  unfolding user_of act_as
  action binding c = act_as (user_of c) binding
