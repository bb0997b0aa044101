-- ===== src/Repository/Reports.antt =====
-- internal/repository/report.go
pub mod Rows
use echo_backend.Base.{Bool, true, false, ◌&&◌, some, List, ◌==◌, ltb, if◌then◌else◌}
use echo_backend.Base.Int.{ℤ, pos, leb_ℤ}
use echo_backend.Text.{Text, codes, contains, to_lower}
use echo_backend.Errors.{Error, sentinel, conflict, error_text}
use echo_backend.Effect.{M, pure, reject_if, ◌>>=◌, ◌>>◌, map_error, total}
use echo_backend.Domain.{
  Uuid, Time, Report, ModerationAction, open_report, resolved_report, is_open,
}
use echo_backend.Database.{Database}
use echo_backend.System.{System, or_new, or_now}
use echo_backend.Repository.Posts.{absent_as_not_found}

-- An error whose text mentions a duplicate becomes `domain.ErrConflict`; other errors pass.
unfoldable pub duplicate_as_conflict : Error → Error
duplicate_as_conflict e =
    if contains (to_lower (error_text e)) (codes "duplicate") then sentinel conflict else e

-- What `Resolve` writes to a row.
abbrev pub resolved : Uuid → ModerationAction → Text → Time → Report → Report
resolved admin_id action note now r = record r {
  status = resolved_report;
  action = action;
  action_note = note;
  reviewed_by = some admin_id;
  reviewed_at = some now;
}

module _ {W : Type 0} (db : Database W) where
  -- The rest of that body: the post is hidden when it has enough reports.
  unfoldable pub auto_hide : Uuid → ℤ → M W Bool
  auto_hide post_id threshold = if leb_ℤ threshold (pos 0) then pure false else (do
    n ← db.reports.count_rows (λ r. r.post_id == post_id)
    if leb_ℤ threshold (pos n)
        then (do
          _ ← db.posts.update (λ p. p.id == post_id) (λ p. record p { is_hidden = true })
          pure true)
        else pure false)

  -- The body of the transaction in `Create`, with the final value of `autoHidden`.
  unfoldable pub create_body : Report → ℤ → M W Bool
  unfolding duplicate_as_conflict auto_hide
  create_body report threshold = do
    map_error duplicate_as_conflict (db.reports.create report)
    auto_hide report.post_id threshold

  unfoldable pub list_open : ℤ → ℤ → M W (List Report)
  list_open limit offset =
      db.reports.find (λ r. is_open r.status) (λ r s. ltb r.created_at s.created_at) limit offset

  unfoldable pub get_by_id : Uuid → M W Report
  unfolding absent_as_not_found
  get_by_id report_id = map_error absent_as_not_found (db.reports.first (λ r. r.id == report_id))

  unfoldable pub get_post_author_id : Uuid → M W Uuid
  unfolding absent_as_not_found
  get_post_author_id post_id = do
    row ← map_error absent_as_not_found (db.posts.first (λ p. p.id == post_id))
    pure row.author_id

module _ {W : Type 0} (db : Database W) (sys : System W) where
  unfoldable pub create : Report → ℤ → M W Bool
  create report threshold = do
    id ← or_new sys report.id
    created_at ← or_now sys report.created_at
    let filled : Report = record report { id = id; created_at = created_at; status = open_report }
    db.transaction Bool (create_body db filled threshold)

  unfoldable pub resolve : Uuid → Uuid → ModerationAction → Text → M W (Unit {0})
  resolve report_id admin_id action note = do
    now ← total sys.now
    rows_affected ←
        db.reports.update (λ r. r.id == report_id && is_open r.status)
          (resolved admin_id action note now)
    reject_if (rows_affected == 0) conflict
