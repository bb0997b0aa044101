-- ===== src/Service/Auth/Refresh.antt =====
-- `Refresh` of internal/service/auth.go: the new token replaces the old one.
use echo_backend.Base.{◌≡◌, ◌∙◌, sym, ap, Bool, Option, ◌⊎◌, inl, inr, Elem}
use echo_backend.Text.{Text}
use echo_backend.Errors.{unauthorized}
use echo_backend.Effect.{Ensures}
use echo_backend.Effect.Rules.{
  bind, guarded, returned, Ensures-mono, mapped, in_context, from_result_lem, from_result_same,
  ended,
}
use echo_backend.Domain.{Uuid, Time, User}
use echo_backend.Crypto.{Claims}
use echo_backend.Database.{Tables}
use echo_backend.Database.Laws.{since}
use echo_backend.Repository.Users.Rows.{with_token, get_by_id_lem, update_token_lem}
use echo_backend.Service.Reports.{session_key}
use echo_backend.Service.Auth.{
  AuthService, add_duration, parse, as_unauthorized, session_error, user_error, rotate, check_token,
  refresh, hmac_key,
}
use echo_backend.Service.Auth.Session.{
  IsAuth, IsSigned, Answers, HasSession, sign_lem, store_session_lem,
}

-- What is left where a rotation fails.
abbrev pub HalfRotated : {W : Type 0} → (W → Tables) → User → W → W → Type 0
HalfRotated view user w w' =
    (view w' ≡ view w)
    ⊎ ((hash : Text) × (at : Time) × (view w' ≡ with_token user.id hash at (view w)))

module _ {W : Type 0} (a : AuthService W) (view : W → Tables) (keys : W → Text → Option Text) where
  -- The token is the current one of this user, by the session that is live in this world and by
  -- the user's row.
  abbrev pub IsCurrent : User → Text → W → Type 0
  IsCurrent user token w =
      Elem user (view w).users
      × Answers a user.token_hash token
      × ((session_hash : Text) × HasSession a keys user.id session_hash w
          × Answers a session_hash token)

  -- What a rotation has done.
  abbrev pub Rotated : User → W → Text → W → Type 0
  Rotated user w token w' =
      (now : Time) × (hash : Text) × IsSigned a user.id user.pseudonym user.is_admin
        (add_duration now a.ttl) token
      × Answers a hash token
      × (view w' ≡ with_token user.id hash (add_duration now a.ttl) (view w))
      × HasSession a keys user.id hash w'

module _ {W : Type 0} (a : AuthService W) (view : W → Tables) (keys : W → Text → Option Text)
    (is_live : Claims → W → Bool) (h : IsAuth a view keys is_live) where
  parse_lem :
      (token : Text) (w : W)
      → Ensures
          (λ _ w'. (keys w' ≡ keys w) × (view w' ≡ view w))
          (λ _ w'. view w' ≡ view w)
          (parse a token w)
  unfolding parse
  parse_lem token w =
      bind _ _ (λ _ w'. (keys w' ≡ keys w) × (view w' ≡ view w)) _ _ w
        (Ensures-mono _ _ _ _ _
          (ended (λ w'. keys w' ≡ keys w) _ _ _ (h.parse_keeps token (hmac_key a.secret) w)
            (h.crypto.jwt_parse_reads token (hmac_key a.secret) w))
          (λ p w₁ q. (q.1, q.0)) (λ e w₁ q. q.0))
        λ p w₁ h₁.
          bind _ _ (λ _ w'. (keys w' ≡ keys w) × (view w' ≡ view w)) _ _ w₁
            (guarded _ _ _ unauthorized w₁ (λ _. h₁) (λ _. h₁.1)) λ _ w₂ h₂. returned _ _ _ _ h₂

  -- A session is live where the keys are those of a world in which it is.
  live_since :
      (v u : Uuid) (hash : Text) (w₁ w : W)
      → keys w₁ ≡ keys w
      → v ≡ u
      → HasSession a keys u hash w₁
      → HasSession a keys v hash w
  live_since v u hash w₁ w same is live =
      ap (λ u. keys w (session_key (a.crypto.uuid_string u))) is
      ∙ sym (ap (λ (f : Text → Option Text). f (session_key (a.crypto.uuid_string u))) same)
      ∙ live

  check_token_lem :
      (token : Text) (w : W)
      → Ensures
          (λ user w'. IsCurrent a view keys user token w × (view w' ≡ view w))
          (λ _ w'. view w' ≡ view w)
          (check_token a token w)
  unfolding check_token
  check_token_lem token w =
      bind _ _ _ _ _ w (mapped _ _ as_unauthorized _ w (parse_lem token w)) λ claims w₁ h₁.
        bind _ _ _ _ _ w₁
          (mapped _ _ as_unauthorized _ w₁ (
            since view _ w w₁ _ h₁.1
              (from_result_same view (a.crypto.uuid_parse claims.user_id) w₁)))
          λ user_id w₂ h₂.
            let same₂ = ap view h₂.1 ∙ h₁.1 in
            let keys₂ = ap keys h₂.1 ∙ h₁.0 in
            bind _ _ _ _ _ w₂
              (mapped _ _ session_error _ w₂ (
                since view _ w w₂ _ same₂
                  (Ensures-mono _ _ _ _ _ (h.sessions.get_lem _ w₂) (λ v w' q. q) (λ e w' q. q.1))))
              λ session_hash w₃ h₃.
                let same₃ = h₃.1 ∙ same₂ in
                bind _ _ _ _ _ w₃
                  (mapped _ _ as_unauthorized _ w₃
                    (since view _ w w₃ _ same₃ (from_result_lem view _ w₃)))
                  λ one w₄ h₄.
                    let same₄ = h₄.1 ∙ same₃ in
                    bind _ _ _ _ _ w₄
                      (mapped _ _ user_error _ w₄
                        (since view _ w w₄ _ same₄ (get_by_id_lem a.db view h.database user_id w₄)))
                      λ user w₅ h₅.
                        let same₅ = h₅.2 ∙ same₄ in
                        bind _ _ _ _ _ w₅
                          (mapped _ _ as_unauthorized _ w₅
                            (since view _ w w₅ _ same₅ (from_result_lem view _ w₅)))
                          λ two w₆ h₆. returned _ _ _ _ (
                            (
                              rw same₄ at h₅.0,
                              h₆.0,
                              (
                                session_hash,
                                live_since user.id user_id session_hash w₂ w keys₂ h₅.1 h₃.0,
                                h₄.0,
                              ),
                            ),
                            h₆.1 ∙ same₅,
                          )

  rotate_lem :
      (user : User) (w : W)
      → Ensures
          (λ token w'. Rotated a view keys user w token w')
          (λ _ w'. HalfRotated view user w w')
          (rotate a user w)
  unfolding rotate
  rotate_lem user w =
      bind _ _ (λ _ w'. view w' ≡ view w) _ _ w (returned _ _ _ _ (h.system.now_reads w))
        λ now w₁ h₁.
          let at = add_duration now a.ttl in
          bind _ _ _ _ _ w₁
            (in_context _ _ _ _ w₁ (
              Ensures-mono _ _ _ _ _
                (sign_lem a view keys is_live h user.id user.pseudonym user.is_admin at w₁)
                (λ t w' q. q) (λ e w' q. inl (q ∙ h₁))))
            λ token w₂ h₂.
              let same₂ = h₂.1 ∙ h₁ in
              bind _ _ _ _ _ w₂
                (in_context _ _ _ _ w₂ (
                  Ensures-mono _ _ _ _ _ (h.crypto.generate_lem _ w₂) (λ x w' q. q)
                    (λ e w' q. inl (q ∙ same₂))))
                λ hash w₃ h₃.
                  let same₃ = h₃.1 ∙ same₂ in
                  bind _ _ _ _ _ w₃
                    (in_context _ _ _ _ w₃ (
                      Ensures-mono _ _ _ _ _
                        (update_token_lem a.db view h.database user.id hash at w₃) (λ x w' q. q)
                        (λ e w' q. inl (q ∙ same₃))))
                    λ _ w₄ h₄.
                      let left = h₄ ∙ ap (with_token user.id hash at) same₃ in
                      bind _ _ _ _ _ w₄
                        (in_context _ _ _ _ w₄ (
                          Ensures-mono _ _ _ _ _
                            (store_session_lem a view keys is_live h user.id hash at w₄)
                            (λ x w' q. q) (λ e w' q. inr (hash, at, q ∙ left))))
                        λ _ w₅ h₅. returned _ _ _ _ (now, hash, h₂.0, h₃.0, h₅.1 ∙ left, h₅.0)

  -- Where parsing a token leaves the keys of Redis alone: a refresh that succeeds was given the
  -- current token of a user: the hash in the user's row, and that of the session which the user has
  -- in Redis when the refresh is called, both answer to it. It returns a token signed for the same
  -- user, pseudonym and role; the user's row and the live session then both hold one hash, which
  -- answers to the new token, and no other row changes. A refresh that fails changes no row, or
  -- only the hash and the expiry of one user.
  pub refresh-rotates :
      (old_token : Text) (w : W)
      → Ensures
          (λ token w'.
            (user : User) × IsCurrent a view keys user old_token w
            × Rotated a view keys user w token w')
          (λ _ w'. (view w' ≡ view w) ⊎ ((user : User) × HalfRotated view user w w'))
          (refresh a old_token w)
  unfolding refresh
  refresh-rotates old_token w =
      bind _ _ _ _ _ w
        (Ensures-mono _ _ _ _ _ (check_token_lem old_token w) (λ u w' q. q) (λ e w' q. inl q))
        λ user w₁ h₁.
          Ensures-mono _ _ _ _ _ (rotate_lem user w₁)
            (λ token w₂ q. (
              user,
              h₁.0,
              (
                q.0,
                q.1,
                q.2,
                q.3,
                q.4 ∙ ap (with_token user.id q.1 (add_duration q.0 a.ttl)) h₁.1,
                q.5,
              ),
            ))
            (λ e w₂ q. elim q [
              | inl same ↦ inl (same ∙ h₁.1)
              | inr (hash, at, left) ↦
                  inr (user, inr (hash, at, left ∙ ap (with_token user.id hash at) h₁.1))
            ])
