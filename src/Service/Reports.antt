-- ===== src/Service/Reports.antt =====
-- internal/service/report.go
pub mod Create
pub mod Act
use echo_backend.Base.{Bool, true, false, not, none, List, [], ◌++◌, if◌then◌else◌}
use echo_backend.Base.Int.{ℤ, pos, ltb_ℤ}
use echo_backend.Text.{Text, codes, trim_space}
use echo_backend.Errors.{Error, sentinel, wrapped, not_found, conflict, invalid_input, is_error}
use echo_backend.Effect.{M, pure, reject_if, ◌>>=◌, ◌>>◌, attempt, map_error, total}
use echo_backend.Domain.{
  Uuid, Report, ModerationAction, no_action, dismiss, hide, ban, open_report, is_open,
}
use echo_backend.Database.{Database}
use echo_backend.Redis.{Redis}
use echo_backend.System.{System}
use echo_backend.Repository.Posts
use echo_backend.Repository.Reports
use echo_backend.Service.Limits.{clamp_limit, bad_length}

-- The actions that a moderator may take.
unfoldable pub is_action : ModerationAction → Bool
is_action dismiss = true
is_action hide = true
is_action ban = true
is_action _ = false

unfoldable pub is_ban : ModerationAction → Bool
is_ban ban = true
is_ban _ = false

-- `action == ModerationHide || action == ModerationBan`
unfoldable pub hides : ModerationAction → Bool
hides hide = true
hides ban = true
hides _ = false

-- The error of `SetHidden`, as `Act` returns it.
unfoldable pub hide_error : Error → Error
hide_error e = if is_error e not_found then sentinel not_found else wrapped (codes "hide post") e

-- The key of a user's session, from the text of the user's UUID.
unfoldable pub session_key : Text → Text
session_key user_id = codes "session:" ++ user_id

module _ {W : Type 0} (db : Database W) where
  unfoldable pub list_open : ℤ → ℤ → M W (List Report)
  list_open limit offset =
      Reports.list_open db (clamp_limit limit) (if ltb_ℤ offset (pos 0) then pos 0 else offset)

module _ {W : Type 0} (db : Database W) (sys : System W) where
  -- The last argument is the field `autoHideThreshold`.
  unfoldable pub create : Uuid → Uuid → Text → ℤ → M W Bool
  create post_id reporter_id reason threshold = do
    let trimmed = trim_space reason
    reject_if (bad_length 500 trimmed) invalid_input
    _ ← Posts.get_by_id db post_id
    id ← total sys.new_uuid
    Reports.create db sys
        (record {
          id = id;
          post_id = post_id;
          reporter_id = reporter_id;
          reason = trimmed;
          status = open_report;
          action = no_action;
          action_note = [];
          reviewed_by = none;
          reviewed_at = none;
          created_at = 0;
        })
        threshold

  module _ (redis : Redis W) (uuid_string : Uuid → Text) where
    -- The author whose session a ban ends; 0 is `uuid.Nil`.
    unfoldable pub author_to_ban : ModerationAction → Uuid → M W Uuid
    author_to_ban action post_id =
        if is_ban action then Reports.get_post_author_id db post_id else pure 0

    unfoldable pub hide_post : ModerationAction → Uuid → M W (Unit {0})
    hide_post action post_id =
        if hides action then map_error hide_error (Posts.set_hidden db post_id true) else pure tt

    -- The error of the deletion is dropped.
    unfoldable pub end_session : ModerationAction → Uuid → M W (Unit {0})
    end_session action author_id =
        if is_ban action
        then (do _ ← attempt (redis.del (session_key (uuid_string author_id))); pure tt)
        else pure tt

    unfoldable pub act : Uuid → Uuid → ModerationAction → Text → M W (Unit {0})
    act admin_id report_id action note = do
      reject_if (not (is_action action)) invalid_input
      report ← Reports.get_by_id db report_id
      reject_if (not (is_open report.status)) conflict
      author_id ← author_to_ban action report.post_id
      hide_post action report.post_id
      Reports.resolve db sys report_id admin_id action (trim_space note)
      end_session action author_id
