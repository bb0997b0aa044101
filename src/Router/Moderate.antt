-- ===== src/Router/Moderate.antt =====
-- `POST /admin/reports/action`, from the header to the rows.
use echo_backend.Base.{
  Bool, Bool-cases, if◌then◌else◌, ◌≡◌, ◌∙◌, refl, sym, ap, true, false, ◌⊎◌, inl, inr, Option,
  Elem,
}
use echo_backend.Base.Int.{ℤ}
use echo_backend.Text.{Text, trim_space, text_eq}
use echo_backend.Errors.{ok}
use echo_backend.Effect.Rules.{bind, Ensures-mono, mapped, from_result_lem}
use echo_backend.Crypto.{Claims}
use echo_backend.Domain.{
  Uuid, Time, Report, ModerationAction, no_action, dismiss, hide, ban, other_action, is_open,
}
use echo_backend.Database.{Tables}
use echo_backend.Repository.Reports.Rows.{with_resolved}
use echo_backend.Service.Auth.{AuthService}
use echo_backend.Service.Auth.Session.{IsAuth}
use echo_backend.Service.Reports.{is_action}
use echo_backend.Service.Reports.Act.{act-resolves, hidden_by}
use echo_backend.Middleware.Gin.{Context, Verdict, next, abort, get}
use echo_backend.Middleware.Admin.{admin_handler, forbidden_verdict}
use echo_backend.Middleware.Auth.{stored, auth_handler}
use echo_backend.Middleware.Auth.Session.{IsLogin, IsJudged, auth_handler-IsJudged}
use echo_backend.Handler.Errors.{Binding, bound}
use echo_backend.Handler.Answers.{IsAnswered, IsAnswered-mono, respond_lem, with_request_lem}
use echo_backend.Handler.Request.{user_of, as_invalid}
use echo_backend.Handler.Reports.{ModerateRequest, act_as, action}
use echo_backend.Router.{chain, report_service, action_route}

is_action-known :
    (action : ModerationAction)
    → is_action action ≡ true
    → (action ≡ dismiss) ⊎ ((action ≡ hide) ⊎ (action ≡ ban))
unfolding is_action
is_action-known no_action e = cc
is_action-known dismiss e = inl refl
is_action-known hide e = inr (inl refl)
is_action-known ban e = inr (inr refl)
is_action-known (other_action _) e = cc

-- The gate lets administrators through, and refuses the others.
pub admin_handler-stored :
    (user_id : Uuid) (pseudonym : Text) (is_admin : Bool) (c : Context)
    → admin_handler (stored user_id pseudonym is_admin c)
      ≡ (if is_admin then next (stored user_id pseudonym is_admin c) else forbidden_verdict)
unfolding admin_handler get text_eq
admin_handler-stored user_id pseudonym true c = refl
admin_handler-stored user_id pseudonym false c = refl

module _ {W : Type 0} (a : AuthService W) (view : W → Tables) (keys : W → Text → Option Text)
    (is_live : Claims → W → Bool) (h : IsAuth a view keys is_live) (threshold : ℤ) where
  -- What a decision of this moderator, to dismiss, to hide or to ban, has done to the rows.
  abbrev pub IsDecided : Binding ModerateRequest → Uuid → W → W → Type 0
  IsDecided binding admin_id w w' =
      (req : ModerateRequest) × (r : Report) × (now : Time) × (binding ≡ bound req)
      × (a.crypto.uuid_parse req.report_id ≡ ok r.id)
      × Elem r (view w).reports
      × ((req.action ≡ dismiss) ⊎ ((req.action ≡ hide) ⊎ (req.action ≡ ban)))
      × (is_open r.status ≡ true)
      × (view w'
          ≡ with_resolved r.id admin_id req.action (trim_space req.note) now
              (hidden_by req.action r.post_id (view w)))

  -- What is left where a decision fails: at most a post that was hidden.
  abbrev pub IsUndecided : W → W → Type 0
  IsUndecided w w' =
      (view w' ≡ view w)
      ⊎ ((action : ModerationAction) × (post_id : Uuid) × (view w'
            ≡ hidden_by action post_id (view w)))

  act_as_lem :
      (binding : Binding ModerateRequest) (admin_id : Uuid) (w : W)
      → IsAnswered
          (λ _ w'. IsDecided binding admin_id w w')
          (λ w'. IsUndecided w w')
          (act_as (report_service a threshold) a.crypto.uuid_parse (ok admin_id) binding w)
  unfolding act_as report_service
  act_as_lem binding admin_id w = with_request_lem _ _ binding _ w (inl refl) λ req made.
      respond_lem _ _ 200 _ w (
        bind _ _ _ _ _ w
          (mapped _ _ as_invalid _ w (
            Ensures-mono _ _ _ _ _ (from_result_lem view (a.crypto.uuid_parse req.report_id) w)
              (λ _ _ q. q) (λ _ _ q. inl q)))
          λ report_id w₁ h₁.
            Ensures-mono _ _ _ _ _
              (act-resolves a.db a.sys view h.database h.system a.redis keys h.sessions
                a.crypto.uuid_string admin_id report_id req.action req.note w₁)
              (λ _ w₂ q.
                let (allowed, (r, stored_row, same_id, open_row, (now, left), _)) = q in
                (
                  req,
                  r,
                  now,
                  made,
                  h₁.0 ∙ ap ok (sym same_id),
                  rw h₁.1 at stored_row,
                  is_action-known req.action allowed,
                  open_row,
                  rw (← same_id, h₁.1) at left,
                ))
              (λ e w₂ q. elim q [
                | inl same ↦ inl (same ∙ h₁.1)
                | inr (r, _, _, hidden) ↦
                    inr (req.action, r.post_id, hidden ∙ ap (hidden_by req.action r.post_id) h₁.1)
              ]))

  -- A success: the login of an administrator in the world `u`, and that administrator's decision.
  abbrev pub IsModeration : Text → Binding ModerateRequest → W → W → W → Type 0
  IsModeration authorization binding u w w' =
      (claims : Claims) × (admin_id : Uuid) × IsLogin a.redis a.crypto a.secret keys view is_live
        authorization claims admin_id u
      × (claims.is_admin ≡ true)
      × IsDecided binding admin_id w w'

  gated :
      (authorization : Text) (c : Context) (binding : Binding ModerateRequest) (claims : Claims)
      (admin_id : Uuid) (u w : W)
      → IsLogin a.redis a.crypto a.secret keys view is_live authorization claims admin_id u
      → IsAnswered
          (λ _ w'. IsModeration authorization binding u w w')
          (λ w'. IsUndecided w w')
          (chain
            (admin_handler (stored admin_id claims.pseudonym claims.is_admin c), w)
            (action (report_service a threshold) a.crypto.uuid_parse binding))
  unfolding chain action user_of get text_eq
  gated authorization c binding claims admin_id u w login = elim (Bool-cases claims.is_admin) [
    | inl admin ↦
        rw (admin, admin_handler-stored admin_id claims.pseudonym true c)
          (IsAnswered-mono _ _ (λ _ w'. IsModeration authorization binding u w w')
            (λ w'. IsUndecided w w') _ (act_as_lem binding admin_id w)
            (λ _ w' q. (claims, admin_id, login, admin, q)) (λ w' q. q))
    | inr other ↦ rw (other, admin_handler-stored admin_id claims.pseudonym false c) (inl refl)
  ]

  -- A decision that is answered as a success came with the session, live when the middleware was
  -- asked, of a user whose token says that it is an administrator's. It is a decision of that user,
  -- as the request asks: to dismiss, hide or ban, on the report that the request names, which was
  -- open and is resolved by it, with the post hidden if the action is to hide or to ban. Any other
  -- answer left every row as it was, or at most hid a post.
  pub action_route-admin :
      (authorization : Text) (c : Context) (binding : Binding ModerateRequest) (w : W)
      → IsAnswered
          (λ _ w'. IsModeration authorization binding w w w')
          (λ w'. IsUndecided w w')
          (action_route a threshold authorization c binding w)
  unfolding action_route chain
  action_route-admin authorization c binding w =
      go (auth_handler a.redis a.crypto a.secret authorization c w) (
        auth_handler-IsJudged a.redis a.crypto a.secret keys view is_live h.sessions h.crypto
          h.parse_keeps authorization c w)
    where
      go :
          (x : Verdict × W)
          → IsJudged a.redis a.crypto a.secret keys view is_live authorization c w x
          → IsAnswered
              (λ _ w'. IsModeration authorization binding w w w')
              (λ w'. IsUndecided w w')
              (chain x (λ c' w'.
                chain
                  (admin_handler c', w')
                  (action (report_service a threshold) a.crypto.uuid_parse binding)))
      go (next c', w₁) ((claims, user_id, login, kept), same) =
          IsAnswered-mono (λ _ w'. IsModeration authorization binding w w₁ w')
            (λ w'. IsUndecided w₁ w') (λ _ w'. IsModeration authorization binding w w w')
            (λ w'. IsUndecided w w') _
            (rw kept (gated authorization c binding claims user_id w w₁ login))
            (λ _ w₂ q. rw same at q) (λ w₂ q. rw same at q)
      go (abort _ _ _, w₁) (_, same) = inl same
