-- ===== src/Repository/Reports/Rows.antt =====
-- What the queries of internal/repository/report.go do to the rows.
use echo_backend.Base.{
  ℕ, ◌+◌, ◌<◌, ◌≡◌, ◌∙◌, refl, ap, Bool, true, not, ◌&&◌, [], ◌∷◌, ◌++◌, ◌==◌, arith, Elem, count,
  rewrite, rewrite_none, count-append, if◌then◌else◌,
}
use echo_backend.Base.Int.{ℤ, pos, leb_ℤ}
use echo_backend.Text.{Text}
use echo_backend.Errors.{conflict}
use echo_backend.Effect.{Ensures}
use echo_backend.Effect.Rules.{bind, mapped, guarded, branch, returned, Ensures-mono}
use echo_backend.Domain.{Uuid, Time, Post, Report, ModerationAction, open_report, is_open}
use echo_backend.Database.{Database, Tables, IsDatabase}
use echo_backend.Database.Laws.{since, anyway, transacted}
use echo_backend.System.{System, IsSystem}
use echo_backend.System.Laws.{or_new_lem, or_now_lem}
use echo_backend.Repository.Posts.{absent_as_not_found}
use echo_backend.Repository.Reports.{
  duplicate_as_conflict, resolved, auto_hide, create_body, create, get_by_id, get_post_author_id,
  resolve,
}

abbrev pub with_report : Report → Tables → Tables
with_report r t = record t { reports = t.reports ++ r ∷ [] }

abbrev pub with_hidden : Uuid → Tables → Tables
with_hidden post_id t = record t {
  posts = rewrite (λ p. p.id == post_id) (λ p. record p { is_hidden = true }) t.posts;
}

abbrev pub reports_of : Uuid → Tables → ℕ
reports_of post_id t = count (λ (r : Report). r.post_id == post_id) t.reports

-- The threshold is set, and the post has as many reports.
abbrev pub is_reached : ℤ → ℕ → Bool
is_reached threshold k = not (leb_ℤ threshold (pos 0)) && leb_ℤ threshold (pos k)

-- The tables after a report, where `hidden` tells whether it hid the post.
abbrev pub reported : Report → Bool → Tables → Tables
reported r hidden t = if hidden then with_hidden r.post_id (with_report r t) else with_report r t

abbrev pub stored_report : Report → Uuid → Time → Report
stored_report report id at = record report { id = id; created_at = at; status = open_report }

abbrev pub open_by_id : Uuid → Report → Bool
open_by_id report_id r = r.id == report_id && is_open r.status

abbrev pub with_resolved : Uuid → Uuid → ModerationAction → Text → Time → Tables → Tables
with_resolved report_id admin_id action note now t = record t {
  reports = rewrite (open_by_id report_id) (resolved admin_id action note now) t.reports;
}

one_more :
    (r : Report) (t : Tables) → reports_of r.post_id (with_report r t) ≡ reports_of r.post_id t + 1
one_more r t =
    ground (arith, count-append (λ (q : Report). q.post_id == r.post_id) t.reports (r ∷ []))

module _ {W : Type 0} (db : Database W) (sys : System W) (view : W → Tables)
    (d : IsDatabase view db) (s : IsSystem view sys) where
  auto_hide_lem :
      (post_id : Uuid) (threshold : ℤ) (w : W)
      → Ensures
          (λ hidden w'.
            (hidden ≡ is_reached threshold (reports_of post_id (view w)))
            × (view w' ≡ (if hidden then with_hidden post_id (view w) else view w)))
          (λ _ _. Unit {0})
          (auto_hide db post_id threshold w)
  unfolding auto_hide
  auto_hide_lem post_id threshold w =
      branch _ _ (leb_ℤ threshold (pos 0)) _ _ w (λ unset. returned _ _ _ _ (rw unset, refl))
        (λ set.
          bind _ _ _ _ _ w (anyway _ _ _ (d.reports_table.count_lem (λ r. r.post_id == post_id) w))
            λ n w₁ h₁.
              branch _ _ (leb_ℤ threshold (pos n)) _ _ w₁
                (λ reached.
                  bind _ _ _ _ _ w₁
                    (anyway _ _ _ (
                      d.posts_table.update_lem (λ p. p.id == post_id)
                        (λ p. record p { is_hidden = true }) w₁))
                    λ _ w₂ h₂.
                      returned _ _ _ _
                        (rw (set, ← h₁.0, reached), h₂.1 ∙ ap (with_hidden post_id) h₁.1))
                (λ below. returned _ _ _ _ (rw (set, ← h₁.0, below), h₁.1)))

  create_body_lem :
      (report : Report) (threshold : ℤ) (w : W)
      → Ensures
          (λ hidden w'.
            (hidden ≡ is_reached threshold (reports_of report.post_id (view w) + 1))
            × (view w' ≡ reported report hidden (view w)))
          (λ _ _. Unit {0})
          (create_body db report threshold w)
  unfolding create_body
  create_body_lem report threshold w =
      bind _ _ _ _ _ w
        (mapped _ _ duplicate_as_conflict _ w (anyway _ _ _ (d.reports_table.create_lem report w)))
        λ _ w₁ h₁.
          Ensures-mono _ _ _ _ _ (auto_hide_lem report.post_id threshold w₁)
            (λ hidden w₂ h₂. (
              h₂.0
                  ∙ ap (λ (t : Tables). is_reached threshold (reports_of report.post_id t)) h₁
                  ∙ ap (is_reached threshold) (one_more report (view w)),
              h₂.1 ∙ ap (λ (t : Tables). if hidden then with_hidden report.post_id t else t) h₁,
            ))
            (λ _ _ _. tt)

  -- A stored report, and whether it hid its post.
  pub create_lem :
      (report : Report) (threshold : ℤ) (w : W)
      → Ensures
          (λ hidden w'.
            (hidden ≡ is_reached threshold (reports_of report.post_id (view w) + 1))
            × ((id : Uuid) × (at : Time) × (view w'
                  ≡ reported (stored_report report id at) hidden (view w))))
          (λ _ w'. view w' ≡ view w)
          (create db sys report threshold w)
  unfolding create
  create_lem report threshold w = bind _ _ _ _ _ w (or_new_lem view sys s _ report.id w) λ id w₁ h₁.
      bind _ _ _ _ _ w₁ (or_now_lem view sys s _ report.created_at w₁) λ at w₂ h₂.
        let same = h₂.0 ∙ h₁.0 in
        let stored = stored_report report id at in
        since view _ w w₂ _ same (
          Ensures-mono _ _ _ _ _
            (transacted db view d _ _
              (λ hidden t t'.
                (hidden ≡ is_reached threshold (reports_of report.post_id t + 1))
                × (t' ≡ reported stored hidden t))
              w₂ (create_body_lem stored threshold))
            (λ hidden w₃ h₃.
              let back : view w₂ ≡ view w = same in
              (
                h₃.0
                    ∙ ap (λ (t : Tables). is_reached threshold (reports_of report.post_id t + 1))
                        back,
                (id, at, h₃.1 ∙ ap (reported stored hidden) back),
              ))
            (λ e w₃ h₃. h₃))

  pub get_by_id_lem :
      (report_id : Uuid) (w : W)
      → Ensures
          (λ r w'. Elem r (view w).reports × (r.id ≡ report_id) × (view w' ≡ view w))
          (λ _ w'. view w' ≡ view w)
          (get_by_id db report_id w)
  unfolding get_by_id
  get_by_id_lem report_id w = mapped _ _ absent_as_not_found _ w (
      Ensures-mono _ _ _ _ _ (d.reports_table.first_lem (λ r. r.id == report_id) w)
        (λ r w' h. (h.0, ground arith, h.2)) (λ e w' h. h.2))

  pub get_post_author_id_lem :
      (post_id : Uuid) (w : W)
      → Ensures
          (λ author_id w'.
            ((p : Post) × Elem p (view w).posts × (p.id ≡ post_id) × (p.author_id ≡ author_id))
            × (view w' ≡ view w))
          (λ _ w'. view w' ≡ view w)
          (get_post_author_id db post_id w)
  unfolding get_post_author_id
  get_post_author_id_lem post_id w =
      bind _ _ _ _ _ w
        (mapped _ _ absent_as_not_found _ w (
          Ensures-mono _ _ _ _ _ (d.posts_table.first_lem (λ p. p.id == post_id) w) (λ p w' h. h)
            (λ e w' h. h.2)))
        λ p w₁ h. returned _ _ _ _ ((p, h.0, ground arith, refl), h.2)

  -- The open reports with the identifier are resolved, and there is one at least.
  pub resolve_lem :
      (report_id admin_id : Uuid) (action : ModerationAction) (note : Text) (w : W)
      → Ensures
          (λ _ w'.
            (0 < count (open_by_id report_id) (view w).reports)
            × ((now : Time) × (view w'
                  ≡ with_resolved report_id admin_id action note now (view w))))
          (λ _ w'. view w' ≡ view w)
          (resolve db sys report_id admin_id action note w)
  unfolding resolve
  resolve_lem report_id admin_id action note w =
      bind _ _ (λ _ w'. view w' ≡ view w) _ _ w (returned _ _ _ _ (s.now_reads w))
        λ now w₁ h₁. since view _ w w₁ _ h₁ (
          bind _ _ _ _ _ w₁ (d.reports_table.update_lem (open_by_id report_id) _ w₁) λ k w₂ h₂.
            guarded _ _ _ conflict w₂
              (λ some_row. (
                rw (← h₁) (ground arith),
                (now, h₂.1 ∙ ap (with_resolved report_id admin_id action note now) h₁),
              ))
              (λ no_row.
                let nothing =
                  rewrite_none (open_by_id report_id) (resolved admin_id action note now)
                    (view w₁).reports (ground arith) in
                rw (h₂.1, nothing) refl))
