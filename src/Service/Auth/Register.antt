-- ===== src/Service/Auth/Register.antt =====
-- `Register` and `Refresh` of internal/service/auth.go.
use echo_backend.Base.{◌≡◌, ◌∙◌, refl, ap, Bool, false, Option, none, some, ◌⊎◌, inl, inr}
use echo_backend.Text.{Text, is_empty}
use echo_backend.Errors.{conflict}
use echo_backend.Effect.{Ensures}
use echo_backend.Effect.Rules.{bind, guarded, returned, failed, Ensures-mono, in_context}
use echo_backend.Domain.{Uuid, Time, User}
use echo_backend.Crypto.{Claims}
use echo_backend.Database.{Tables}
use echo_backend.Repository.Users.Rows.{with_user}
use echo_backend.Service.Auth.{AuthService, add_duration, finish_register, register}
use echo_backend.Service.Auth.Session.{
  IsAuth, IsSigned, Answers, HasSession, Drawn, new_user, store_session_lem, register_loop_lem,
}

module _ {W : Type 0} (a : AuthService W) (view : W → Tables) (keys : W → Text → Option Text)
    (is_live : Claims → W → Bool) (h : IsAuth a view keys is_live) where
  finish_register_lem :
      (user_id : Uuid) (now expires_at : Time) (t : Tables) (o : Option (Text × Text × Text))
      (w : W)
      → Drawn a view keys is_live h user_id now expires_at t o (view w)
      → Ensures
          (λ r w'.
            (hash : Text) × IsSigned a user_id r.1 false expires_at r.0
            × Answers a hash r.0
            × (is_empty r.0 ≡ false)
            × (view w' ≡ with_user (new_user user_id r.1 hash now expires_at) t)
            × HasSession a keys user_id hash w')
          (λ _ w'.
            (view w' ≡ t)
            ⊎ ((pseudonym hash : Text) × (view w'
                  ≡ with_user (new_user user_id pseudonym hash now expires_at) t)))
          (finish_register a user_id expires_at o w)
  unfolding finish_register
  finish_register_lem user_id now expires_at t none w drawn = failed _ _ _ _ (inl drawn)
  finish_register_lem user_id now expires_at t (some (token, hash, pseudonym)) w drawn =
      bind _ _ (λ _ w'. (w' ≡ w) × (is_empty token ≡ false)) _ _ w
        (guarded _ _ (is_empty token) conflict w (λ e. (refl, e))
          (λ _. inr (pseudonym, hash, drawn.2)))
        λ _ w₁ h₁.
          let same = ap view h₁.0 ∙ drawn.2 in
          bind _ _ _ _ _ w₁
            (in_context _ _ _ _ w₁ (
              Ensures-mono _ _ _ _ _
                (store_session_lem a view keys is_live h user_id hash expires_at w₁) (λ _ w' q. q)
                (λ e w' q. inr (pseudonym, hash, q ∙ same))))
            λ _ w₂ h₂. returned _ _ _ _ (hash, drawn.0, drawn.1, h₁.1, h₂.1 ∙ same, h₂.0)

  -- A registration that succeeds returns a token and a pseudonym. There is one more user, who is no
  -- administrator, with that pseudonym and with a hash that answers to the token; the token is
  -- signed with the secret for the user, until a time that is `ttl` after the user's creation; the
  -- session of the user is live in Redis with the same hash; no other row changes. A registration
  -- that fails changes no row, or leaves one new user, who is no administrator.
  pub register-session :
      (w : W)
      → Ensures
          (λ r w'.
            (user_id : Uuid) × (now : Time) × (hash : Text) × IsSigned a user_id r.1 false
              (add_duration now a.ttl)
              r.0
            × Answers a hash r.0
            × (is_empty r.0 ≡ false)
            × (view w'
                ≡ with_user (new_user user_id r.1 hash now (add_duration now a.ttl)) (view w))
            × HasSession a keys user_id hash w')
          (λ _ w'.
            (view w' ≡ view w)
            ⊎ ((u : User) × (u.is_admin ≡ false) × (view w' ≡ with_user u (view w))))
          (register a w)
  unfolding register
  register-session w =
      bind _ _ (λ _ w'. view w' ≡ view w) _ _ w (returned _ _ _ _ (h.system.new_uuid_reads w))
        λ user_id w₁ h₁.
          bind _ _ (λ _ w'. view w' ≡ view w) _ _ w₁ (returned _ _ _ _ (h.system.now_reads w₁ ∙ h₁))
            λ now w₂ h₂.
              let expires_at = add_duration now a.ttl in
              bind _ _ _ _ _ w₂
                (Ensures-mono _ _ _ _ _
                  (register_loop_lem a view keys is_live h 8 user_id now expires_at w₂)
                  (λ o w' q. q) (λ e w' q. inl (q ∙ h₂)))
                λ o w₃ h₃.
                  Ensures-mono _ _ _ _ _
                    (finish_register_lem user_id now expires_at (view w₂) o w₃ h₃)
                    (λ r w₄ q. (
                      user_id,
                      now,
                      q.0,
                      q.1,
                      q.2,
                      q.3,
                      q.4 ∙ ap (with_user (new_user user_id r.1 q.0 now expires_at)) h₂,
                      q.5,
                    ))
                    (λ e w₄ q. elim q [
                      | inl same ↦ inl (same ∙ h₂)
                      | inr (pseudonym, hash, left) ↦ inr (
                        new_user user_id pseudonym hash now expires_at,
                        refl,
                        left ∙ ap (with_user _) h₂,
                      )
                    ])
