-- ===== src/System/Laws.antt =====
-- What is filled in leaves every row alone, and keeps what is there.
use echo_backend.Base.{◌≡◌, ◌≢◌, refl, ◌==◌, ==_iff}
use echo_backend.Errors.{Error}
use echo_backend.Effect.{Ensures, pure, total}
use echo_backend.Effect.Rules.{returned, branch}
use echo_backend.Domain.{Uuid, Time}
use echo_backend.System.{System, IsSystem, or_new, or_now}

module _ {W V : Type 0} (view : W → V) (sys : System W) (s : IsSystem view sys) where
  pub or_new_lem :
      (E : Error → W → Type 0) (id : Uuid) (w : W)
      → Ensures (λ id' w'. (view w' ≡ view w) × (id ≢ 0 → id' ≡ id)) E (or_new sys id w)
  or_new_lem E id w =
      branch _ _ (id == 0) (total sys.new_uuid) (pure id) w
        (λ zero_id.
          returned _ _ _ _ (s.new_uuid_reads w, λ h. absurd (h ((==_iff id 0).0 zero_id))))
        (λ other. returned _ _ _ _ (refl, λ _. refl))

  pub or_now_lem :
      (E : Error → W → Type 0) (at : Time) (w : W)
      → Ensures (λ at' w'. (view w' ≡ view w) × (at ≢ 0 → at' ≡ at)) E (or_now sys at w)
  or_now_lem E at w =
      branch _ _ (at == 0) (total sys.now) (pure at) w
        (λ zero_time. returned _ _ _ _ (s.now_reads w, λ h. absurd (h ((==_iff at 0).0 zero_time))))
        (λ other. returned _ _ _ _ (refl, λ _. refl))
