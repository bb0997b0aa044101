-- ===== src/Service/Reports/Act.antt =====
-- `Act` of internal/service/report.go: what a moderator's decision does.
use mathlib.Core.Path.{subst}
use echo_backend.Base.{
  sym, ◌≡◌, ◌∙◌, refl, ap, true, false, not, ◌⊎◌, inl, inr, Option, none, arith, Elem, All,
  Elem-All, if◌then◌else◌,
}
use echo_backend.Text.{Text, trim_space}
use echo_backend.Errors.{Error, err, invalid_input, conflict}
use echo_backend.Effect.{Ensures, pure, ◌>>◌}
use echo_backend.Effect.Rules.{
  bind, guarded, returned, Ensures-mono, mapped, branch, attempted, recorded,
}
use echo_backend.Domain.{Uuid, Time, Post, Report, ModerationAction, is_open}
use echo_backend.Database.{Database, Tables, IsDatabase}
use echo_backend.Database.Laws.{since}
use echo_backend.Redis.{Redis, IsRedis}
use echo_backend.System.{System, IsSystem}
use echo_backend.Repository.Posts.Rows.{set_hidden_lem}
use echo_backend.Repository.Reports.Rows.{
  get_by_id_lem, get_post_author_id_lem, resolve_lem, with_resolved, with_hidden,
}
use echo_backend.Repository.Reports
use echo_backend.Service.Reports.{
  is_action, is_ban, hides, hide_error, session_key, author_to_ban, hide_post, end_session, act,
}

-- The tables in which the post is hidden if the action hides.
abbrev pub hidden_by : ModerationAction → Uuid → Tables → Tables
hidden_by action post_id t = if hides action then with_hidden post_id t else t

-- The session of the user is gone, or Redis refused to delete it.
abbrev pub IsEnded :
    {W : Type 0} → Redis W → (W → Text → Option Text) → (Uuid → Text) → Uuid → W → Type 0
IsEnded {W} redis keys uuid_string user_id w =
    let key = session_key (uuid_string user_id) in
    (keys w key ≡ none) ⊎ ((u : W) × (e : Error) × ((redis.del key u).0 ≡ err e))

module _ {W : Type 0} (db : Database W) (sys : System W) (view : W → Tables)
    (d : IsDatabase view db) (s : IsSystem view sys) (redis : Redis W)
    (keys : W → Text → Option Text) (l : IsRedis keys view redis) (uuid_string : Uuid → Text) where
  author_to_ban_lem :
      (action : ModerationAction) (post_id : Uuid) (w : W)
      → Ensures
          (λ author_id w'.
            (is_ban action ≡ true
              → (p : Post) × Elem p (view w).posts × (p.id ≡ post_id) × (p.author_id ≡ author_id))
            × (view w' ≡ view w))
          (λ _ w'. view w' ≡ view w)
          (author_to_ban db sys redis uuid_string action post_id w)
  unfolding author_to_ban
  author_to_ban_lem action post_id w =
      branch _ _ (is_ban action) _ (pure 0) w
        (λ _.
          Ensures-mono _ _ _ _ _ (get_post_author_id_lem db sys view d s post_id w)
            (λ a w' h. (λ _. h.0, h.1)) (λ e w' h. h))
        (λ other. returned _ _ _ _ (λ b. absurd (ground arith), refl))

  hide_post_lem :
      (action : ModerationAction) (post_id : Uuid) (w : W)
      → Ensures
          (λ _ w'. view w' ≡ hidden_by action post_id (view w))
          (λ _ w'. view w' ≡ view w)
          (hide_post db sys redis uuid_string action post_id w)
  unfolding hide_post
  hide_post_lem action post_id w =
      branch _ _ (hides action) _ (pure tt) w
        (λ hiding. mapped _ _ hide_error _ w (
          Ensures-mono _ _ _ _ _ (set_hidden_lem db view d post_id true w)
            (λ _ w' h. h.1 ∙ rw hiding) (λ e w' h. h)))
        (λ other. returned _ _ _ _ (rw other))

  end_session_lem :
      (action : ModerationAction) (author_id : Uuid) (w : W)
      → Ensures
          (λ _ w'.
            (is_ban action ≡ true → IsEnded redis keys uuid_string author_id w')
            × (view w' ≡ view w))
          (λ _ _. ⊥)
          (end_session db sys redis uuid_string action author_id w)
  unfolding end_session
  end_session_lem action author_id w =
      branch _ _ (is_ban action) _ (pure tt) w
        (λ banned.
          bind _ _ (λ _ w'. IsEnded redis keys uuid_string author_id w' × (view w' ≡ view w)) _ _ w
            (attempted _ _ _ w (
              Ensures-mono _ _ _ _ _ (recorded _ _ _ (l.del_lem _ w)) (λ _ w' h. (inl h.0, h.1))
                (λ e w' h. (inr (w, e, h.1), h.0))))
            λ _ w₁ h₁. returned _ _ _ _ (λ _. h₁.0, h₁.1))
        (λ other. returned _ _ _ _ (λ b. absurd (ground arith), refl))

  -- The three writes at the end of `Act`.
  finish_lem :
      (admin_id report_id post_id author_id : Uuid) (action : ModerationAction) (note : Text)
      (w : W)
      → Ensures
          (λ _ w'.
            ((now : Time) × (view w'
                ≡ with_resolved report_id admin_id action note now
                    (hidden_by action post_id (view w))))
            × (is_ban action ≡ true → IsEnded redis keys uuid_string author_id w'))
          (λ _ w'. (view w' ≡ view w) ⊎ (view w' ≡ hidden_by action post_id (view w)))
          ((hide_post db sys redis uuid_string action post_id
              >> (Reports.resolve db sys report_id admin_id action note
                  >> end_session db sys redis uuid_string action author_id))
            w)
  finish_lem admin_id report_id post_id author_id action note w =
      bind _ _ _ _ _ w
        (Ensures-mono _ _ _ _ _ (hide_post_lem action post_id w) (λ _ w' h. h) (λ e w' h. inl h))
        λ _ w₁ h₁.
          bind _ _ _ _ _ w₁
            (Ensures-mono _ _ _ _ _ (resolve_lem db sys view d s report_id admin_id action note w₁)
              (λ _ w' h. h.1) (λ e w' h. inr (h ∙ h₁)))
            λ _ w₂ h₂.
              let (now, left) = h₂ in
              let done = left ∙ ap (with_resolved report_id admin_id action note now) h₁ in
              Ensures-mono _ _ _ _ _ (end_session_lem action author_id w₂)
                (λ _ w₃ h₃. ((now, h₃.1 ∙ done), h₃.0)) (λ e w₃ never. absurd never)

  -- A decision that succeeds is to dismiss, hide or ban, on a report that is open. The open report
  -- is resolved, with the action, the trimmed note, the moderator and a time; its post is hidden if
  -- the action is to hide or to ban; after a ban the session of the post's author is gone, unless
  -- Redis refused to delete it. No other row changes. A decision that fails leaves every report as
  -- it was, and changes no post, or hides the post of the report.
  pub act-resolves :
      (admin_id report_id : Uuid) (action : ModerationAction) (note : Text) (w : W)
      → Ensures
          (λ _ w'.
            (is_action action ≡ true)
            × ((r : Report) × Elem r (view w).reports
                × (r.id ≡ report_id)
                × (is_open r.status ≡ true)
                × ((now : Time) × (view w'
                      ≡ with_resolved report_id admin_id action
                          (trim_space note)
                          now
                          (hidden_by action r.post_id (view w))))
                × (is_ban action ≡ true
                    → (p : Post) × Elem p (view w).posts
                      × (p.id ≡ r.post_id)
                      × IsEnded redis keys uuid_string p.author_id w')))
          (λ _ w'.
            (view w' ≡ view w)
            ⊎ ((r : Report) × Elem r (view w).reports
                × (r.id ≡ report_id)
                × (view w' ≡ hidden_by action r.post_id (view w))))
          (act db sys redis uuid_string admin_id report_id action note w)
  unfolding act
  act-resolves admin_id report_id action note w =
      bind _ _ (λ _ w'. (w' ≡ w) × (is_action action ≡ true)) _ _ w
        (guarded _ _ _ invalid_input w (λ h. (refl, ground arith)) (λ _. inl refl))
        λ _ w₁ h₁.
          let same₁ = ap view h₁.0 in
          bind _ _ _ _ _ w₁
            (Ensures-mono _ _ _ _ _ (get_by_id_lem db sys view d s report_id w₁) (λ r w' h. h)
              (λ e w' h. inl (h ∙ same₁)))
            λ r w₂ h₂.
              let same₂ = h₂.2 ∙ same₁ in
              bind _ _ (λ _ w'. (w' ≡ w₂) × (is_open r.status ≡ true)) _ _ w₂
                (guarded _ _ _ conflict w₂ (λ h. (refl, ground arith)) (λ _. inl same₂))
                λ _ w₃ h₃.
                  let same₃ = ap view h₃.0 ∙ same₂ in
                  bind _ _ _ _ _ w₃
                    (Ensures-mono _ _ _ _ _ (author_to_ban_lem action r.post_id w₃) (λ a w' h. h)
                      (λ e w' h. inl (h ∙ same₃)))
                    λ author_id w₄ h₄.
                      let same = h₄.1 ∙ same₃ in
                      Ensures-mono _ _ _ _ _
                        (finish_lem admin_id report_id r.post_id author_id action (trim_space note)
                          w₄)
                        (λ _ w₅ h₅.
                          let (now, left) = h₅.0 in
                          (
                            h₁.1,
                            (
                              r,
                              rw same₁ at h₂.0,
                              h₂.1,
                              h₃.1,
                              (
                                now,
                                left
                                    ∙ ap
                                        (λ (t : Tables).
                                          with_resolved report_id admin_id action (trim_space note)
                                            now (hidden_by action r.post_id t))
                                        same,
                              ),
                              λ b.
                                  let (p, stored, own, author) = h₄.0 b in
                                  (
                                    p,
                                    rw same₃ at stored,
                                    own,
                                    subst (λ u. IsEnded redis keys uuid_string u w₅) (sym author)
                                        (h₅.1 b),
                                  ),
                            ),
                          ))
                        (λ e w₅ h₅. elim h₅ [
                          | inl unchanged ↦ inl (unchanged ∙ same)
                          | inr hidden ↦ inr (
                            r,
                            rw same₁ at h₂.0,
                            h₂.1,
                            hidden ∙ ap (hidden_by action r.post_id) same,
                          )
                        ])

  -- A decision on reports of which none is open fails and changes no row.
  pub act-closed :
      (admin_id report_id : Uuid) (action : ModerationAction) (note : Text) (w : W)
      → All (λ r. r.id ≡ report_id → is_open r.status ≡ false) (view w).reports
      → Ensures
          (λ _ _. ⊥)
          (λ _ w'. view w' ≡ view w)
          (act db sys redis uuid_string admin_id report_id action note w)
  unfolding act
  act-closed admin_id report_id action note w closed =
      bind _ _ (λ _ w'. w' ≡ w) _ _ w
        (guarded _ _ (not (is_action action)) invalid_input w (λ _. refl) (λ _. refl))
        λ _ w₁ h₁.
          let same₁ = ap view h₁ in
          bind _ _ _ _ _ w₁ (since view _ w w₁ _ same₁ (get_by_id_lem db sys view d s report_id w₁))
            λ r w₂ h₂.
              bind _ _ (λ _ _. ⊥) _ _ w₂
                (guarded _ _ _ conflict w₂
                  (λ still_open.
                    let told = Elem-All _ r (view w).reports closed (rw same₁ at h₂.0) h₂.1 in
                    absurd (ground arith))
                  (λ _. h₂.2 ∙ same₁))
                λ _ w₃ never. absurd never
