-- ===== src/Service/Auth/Session.antt =====
-- Signing and storing a session, and the rounds of `Register` of internal/service/auth.go.
use mathlib.Core.Path.{subst}
use echo_backend.Base.{ℕ, zero, suc, ◌≡◌, ◌∙◌, refl, ap, Bool, false, Option, none, some}
use echo_backend.Base.Int.{pos, sub_ℕ, leb_ℤ}
use echo_backend.Text.{Text}
use echo_backend.Errors.{Result, ok, err, unauthorized, conflict, is_error}
use echo_backend.Effect.{Ensures}
use echo_backend.Effect.Rules.{
  bind, guarded, returned, failed, Ensures-mono, attempted, branch, in_context,
}
use echo_backend.Domain.{Uuid, Time, User}
use echo_backend.Crypto.{Claims, SigningMethod, IsCrypto}
use echo_backend.Database.{Tables, IsDatabase}
use echo_backend.Database.Laws.{since}
use echo_backend.Redis.{IsRedis}
use echo_backend.System.{IsSystem}
use echo_backend.Repository.Users.Rows.{with_user, create_lem}
use echo_backend.Service.Reports.{session_key}
use echo_backend.Service.Auth.{
  AuthService, sign, store_session, register_round, register_loop, settle_round, token_digest,
}

-- What `Auth` relies on: the laws of what it calls, over one view of the rows.
pub record IsAuth {W : Type 0} (a : AuthService W) (view : W → Tables)
    (keys : W → Text → Option Text) (is_live : Claims → W → Bool) : Type 1 where
  pub database : IsDatabase view a.db
  pub system : IsSystem view a.sys
  pub sessions : IsRedis keys view a.redis
  pub crypto : IsCrypto a.crypto is_live view
  pub generate_reads : (w : W) → view (a.generate w).1 ≡ view w
  -- Parsing a token asks nothing of Redis.
  pub parse_keeps :
      (token : Text) (key : SigningMethod → Result Text) (w : W)
      → keys (a.crypto.jwt_parse token key w).1 ≡ keys w

-- The user of a round that found a free pseudonym.
abbrev pub new_user : Uuid → Text → Text → Time → Time → User
new_user id pseudonym hash now expires_at = record {
  id = id;
  pseudonym = pseudonym;
  token_hash = hash;
  is_admin = false;
  created_at = now;
  expires_at = expires_at;
}

module _ {W : Type 0} (a : AuthService W) where
  -- The claims of a token that expires at this time.
  abbrev pub claims_of : Uuid → Text → Bool → Time → Time → Claims
  claims_of user_id pseudonym is_admin expires_at issued_at = record {
    user_id = a.crypto.uuid_string user_id;
    pseudonym = pseudonym;
    is_admin = is_admin;
    expires_at = a.crypto.numeric_date expires_at;
    issued_at = a.crypto.numeric_date issued_at;
  }

  -- The token is signed with the secret, for these claims.
  abbrev pub IsSigned : Uuid → Text → Bool → Time → Text → Type 0
  IsSigned user_id pseudonym is_admin expires_at token =
      (issued_at : Time) × (a.crypto.jwt_sign a.secret
          (claims_of user_id pseudonym is_admin expires_at issued_at)
        ≡ ok token)

  -- The hash answers to the token.
  abbrev pub Answers : Text → Text → Type 0
  Answers hash token = a.crypto.bcrypt_compare hash (token_digest a.crypto token) ≡ ok tt

  -- The session of the user is live in Redis with this hash.
  abbrev pub HasSession : (W → Text → Option Text) → Uuid → Text → W → Type 0
  HasSession keys user_id hash w = keys w (session_key (a.crypto.uuid_string user_id)) ≡ some hash

module _ {W : Type 0} (a : AuthService W) (view : W → Tables) (keys : W → Text → Option Text)
    (is_live : Claims → W → Bool) (h : IsAuth a view keys is_live) where
  pub sign_lem :
      (user_id : Uuid) (pseudonym : Text) (is_admin : Bool) (expires_at : Time) (w : W)
      → Ensures
          (λ token w'. IsSigned a user_id pseudonym is_admin expires_at token × (view w' ≡ view w))
          (λ _ w'. view w' ≡ view w)
          (sign a user_id pseudonym is_admin expires_at w)
  unfolding sign
  sign_lem user_id pseudonym is_admin expires_at w =
      bind _ _ (λ _ w'. view w' ≡ view w) _ _ w (returned _ _ _ _ (h.system.now_reads w))
        λ now w₁ h₁.
          go (a.crypto.jwt_sign a.secret (claims_of a user_id pseudonym is_admin expires_at now)) w₁
            now refl h₁
    where
      go :
          (r : Result Text) (w₁ : W) (now : Time)
          → a.crypto.jwt_sign a.secret (claims_of a user_id pseudonym is_admin expires_at now) ≡ r
          → view w₁ ≡ view w
          → Ensures
              (λ token w'.
                IsSigned a user_id pseudonym is_admin expires_at token × (view w' ≡ view w))
              (λ _ w'. view w' ≡ view w)
              (r, w₁)
      go (ok token) w₁ now e same = returned _ _ _ _ ((now, e), same)
      go (err x) w₁ now e same = failed _ _ _ _ same

  pub store_session_lem :
      (user_id : Uuid) (hash : Text) (expires_at : Time) (w : W)
      → Ensures
          (λ _ w'. HasSession a keys user_id hash w' × (view w' ≡ view w))
          (λ _ w'. view w' ≡ view w)
          (store_session a user_id hash expires_at w)
  unfolding store_session
  store_session_lem user_id hash expires_at w =
      bind _ _ (λ _ w'. view w' ≡ view w) _ _ w (returned _ _ _ _ (h.system.now_reads w))
        λ now w₁ h₁.
          bind _ _ (λ _ w'. w' ≡ w₁) _ _ w₁
            (guarded _ _ (leb_ℤ (sub_ℕ expires_at now) (pos 0)) unauthorized w₁ (λ _. refl)
              (λ _. h₁))
            λ _ w₂ h₂.
              let same = ap view h₂ ∙ h₁ in
              since view _ w w₂ _ same (
                Ensures-mono _ _ _ _ _ (h.sessions.set_lem _ hash _ w₂)
                  (λ _ w₃ h₃. (h₃.0, h₃.1 ∙ same)) (λ e w₃ h₃. h₃))

  -- What a round or the loop has done: nothing, or the user is stored with the token's hash.
  abbrev pub Drawn : Uuid → Time → Time → Tables → Option (Text × Text × Text) → Tables → Type 0
  Drawn user_id now expires_at t none t' = t' ≡ t
  Drawn user_id now expires_at t (some (token, hash, pseudonym)) t' =
      IsSigned a user_id pseudonym false expires_at token
      × Answers a hash token
      × (t' ≡ with_user (new_user user_id pseudonym hash now expires_at) t)

  -- The rows after the attempt to store the user.
  abbrev Tried : User → Tables → Result (Unit {0}) → Tables → Type 0
  Tried u t (ok _) t' = t' ≡ with_user u t
  Tried u t (err _) t' = t' ≡ t

  settle_round_lem :
      (user_id : Uuid) (now expires_at : Time) (token hash pseudonym : Text) (t : Tables)
      (r : Result (Unit {0})) (w : W)
      → IsSigned a user_id pseudonym false expires_at token × Answers a hash token
      → Tried (new_user user_id pseudonym hash now expires_at) t r (view w)
      → Ensures
          (λ o w'. Drawn user_id now expires_at t o (view w'))
          (λ _ w'. view w' ≡ t)
          (settle_round a (token, hash, pseudonym) r w)
  unfolding settle_round
  settle_round_lem user_id now expires_at token hash pseudonym t (ok _) w signed tried =
      returned _ _ _ _ (signed.0, signed.1, tried)
  settle_round_lem user_id now expires_at token hash pseudonym t (err e) w signed tried =
      branch _ _ (is_error e conflict) _ _ w (λ _. returned _ _ _ _ tried)
        (λ _. failed _ _ _ _ tried)

  register_round_lem :
      (user_id : Uuid) (now expires_at : Time) (w : W)
      → Ensures
          (λ o w'. Drawn user_id now expires_at (view w) o (view w'))
          (λ _ w'. view w' ≡ view w)
          (register_round a user_id now expires_at w)
  unfolding register_round
  register_round_lem user_id now expires_at w =
      bind _ _ (λ _ w'. view w' ≡ view w) _ _ w (returned _ _ _ _ (h.generate_reads w))
        λ pseudonym w₁ h₁.
          bind _ _ _ _ _ w₁
            (in_context _ _ _ _ w₁
              (since view _ w w₁ _ h₁ (sign_lem user_id pseudonym false expires_at w₁)))
            λ token w₂ h₂.
              let same₂ = h₂.1 ∙ h₁ in
              bind _ _ _ _ _ w₂
                (in_context _ _ _ _ w₂ (since view _ w w₂ _ same₂ (h.crypto.generate_lem _ w₂)))
                λ hash w₃ h₃.
                  let same₃ = h₃.1 ∙ same₂ in
                  bind _ _ _ _ _ w₃
                    (attempted
                      (λ r w'.
                        Tried (new_user user_id pseudonym hash now expires_at) (view w) r (view w'))
                      _ _ w₃
                      (Ensures-mono _ _ _ _ _
                        (since view _ w w₃ _ same₃ (
                          create_lem a.db view h.database
                            (new_user user_id pseudonym hash now expires_at) w₃))
                        (λ _ w' stored. stored ∙ ap (with_user _) same₃) (λ e w' same. same)))
                    λ r w₄ h₄.
                      settle_round_lem user_id now expires_at token hash pseudonym (view w) r w₄
                        (h₂.0, h₃.0) h₄

  pub register_loop_lem :
      (rounds : ℕ) (user_id : Uuid) (now expires_at : Time) (w : W)
      → Ensures
          (λ o w'. Drawn user_id now expires_at (view w) o (view w'))
          (λ _ w'. view w' ≡ view w)
          (register_loop a rounds user_id now expires_at w)
  unfolding register_loop
  register_loop_lem zero user_id now expires_at w = returned _ _ _ _ refl
  register_loop_lem (suc rounds) user_id now expires_at w =
      bind _ _ _ _ _ w (register_round_lem user_id now expires_at w) (elim [
        | some t ↦ λ w₁ h₁. returned _ _ _ _ h₁
        | none ↦ λ w₁ h₁.
            subst
              (λ t.
                Ensures (λ o w'. Drawn user_id now expires_at t o (view w')) (λ _ w'. view w' ≡ t)
                  (register_loop a rounds user_id now expires_at w₁))
              h₁ (register_loop_lem rounds user_id now expires_at w₁)
      ])
