-- ===== src/Service/Reports/Create.antt =====
-- `Create` of internal/service/report.go: a report, and the hiding of a post with many of them.
use echo_backend.Base.{◌+◌, ◌≤◌, ◌≡◌, ◌∙◌, refl, ap, true, false, none, [], arith, Elem}
use echo_backend.Base.Int.{ℤ}
use echo_backend.Text.{Text, is_empty, len, trim_space}
use echo_backend.Errors.{invalid_input}
use echo_backend.Effect.{Ensures}
use echo_backend.Effect.Rules.{bind, guarded, returned, Ensures-mono}
use echo_backend.Domain.{Uuid, Time, Post, Report, open_report, no_action}
use echo_backend.Database.{Database, Tables, IsDatabase}
use echo_backend.Database.Laws.{since}
use echo_backend.System.{System, IsSystem}
use echo_backend.Repository.Posts.Rows.{visible_by_id, get_by_id-Gets}
use echo_backend.Repository.Reports.Rows.{create_lem, reports_of, is_reached, reported}
use echo_backend.Service.Limits.{bad_length}
use echo_backend.Service.Reports.{create}

-- The report that is stored.
abbrev pub filed : Uuid → Time → Uuid → Uuid → Text → Report
filed id at post_id reporter_id reason = record {
  id = id;
  post_id = post_id;
  reporter_id = reporter_id;
  reason = trim_space reason;
  status = open_report;
  action = no_action;
  action_note = [];
  reviewed_by = none;
  reviewed_at = none;
  created_at = at;
}

reason_length :
    (reason : Text)
    → bad_length 500 (trim_space reason) ≡ false
    → (is_empty (trim_space reason) ≡ false) × (len (trim_space reason) ≤ 500)
unfolding bad_length
reason_length reason h = ground arith

module _ {W : Type 0} (db : Database W) (sys : System W) (view : W → Tables)
    (d : IsDatabase view db) (s : IsSystem view sys) where
  -- A report that succeeds is of a visible post, for a reason of 1 to 500 bytes after trimming. It
  -- is stored as open, and the post is hidden, in the same transaction, exactly if the threshold is
  -- positive and the post now has as many reports; the result tells whether it was hidden. No other
  -- row changes. A report that fails changes no row.
  pub create-reported :
      (post_id reporter_id : Uuid) (reason : Text) (threshold : ℤ) (w : W)
      → Ensures
          (λ hidden w'.
            (is_empty (trim_space reason) ≡ false)
            × (len (trim_space reason) ≤ 500)
            × ((p : Post) × Elem p (view w).posts × (visible_by_id post_id p ≡ true))
            × (hidden ≡ is_reached threshold (reports_of post_id (view w) + 1))
            × ((id : Uuid) × (at : Time) × (view w'
                  ≡ reported (filed id at post_id reporter_id reason) hidden (view w))))
          (λ _ w'. view w' ≡ view w)
          (create db sys post_id reporter_id reason threshold w)
  unfolding create
  create-reported post_id reporter_id reason threshold w =
      bind _ _ (λ _ w'. (w' ≡ w) × (bad_length 500 (trim_space reason) ≡ false)) _ _ w
        (guarded _ _ _ invalid_input w (λ h. (refl, h)) (λ _. refl))
        λ _ w₁ h₁.
          let same₁ = ap view h₁.0 in
          let good = reason_length reason h₁.1 in
          bind _ _ _ _ _ w₁
            (since view _ w w₁ _ same₁ (
              Ensures-mono _ _ _ _ _ (get_by_id-Gets db view d post_id w₁) (λ p w' h. h)
                (λ e w' h. h.1)))
            λ p w₂ h₂.
              bind _ _ (λ _ w'. view w' ≡ view w₂) _ _ w₂ (returned _ _ _ _ (s.new_uuid_reads w₂))
                λ id₀ w₃ h₃.
                  let same = h₃ ∙ h₂.2 ∙ same₁ in
                  since view _ w w₃ _ same (
                    Ensures-mono _ _ _ _ _ (create_lem db sys view d s _ threshold w₃)
                      (λ hidden w₄ h₄.
                        let (id, at, left) = h₄.1 in
                        (
                          good.0,
                          good.1,
                          (p, rw same₁ at h₂.0, h₂.1),
                          h₄.0
                              ∙ ap (λ (t : Tables). is_reached threshold (reports_of post_id t + 1))
                                  same,
                          (
                            id,
                            at,
                            left
                                ∙ ap (reported (filed id at post_id reporter_id reason) hidden)
                                    same,
                          ),
                        ))
                      (λ e w₄ h₄. h₄))
