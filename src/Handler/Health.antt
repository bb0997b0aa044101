-- ===== src/Handler/Health.antt =====
-- internal/handler/health.go. The deadline that both checks share is left out; the handle of the
-- pool, its ping and that of Redis are parameters.
use echo_backend.Base.{ℕ, ◌&&◌, Bool, true, false, if◌then◌else◌}
use echo_backend.Text.{Text, codes}
use echo_backend.Errors.{Result, ok, err}
use echo_backend.Effect.{M, ◌>>◌}

pub record Health : Type 0 where
  pub status : Text
  pub db : Text
  pub redis : Text

abbrev pub answered : Result (Unit {0}) → Bool
answered (ok _) = true
answered (err _) = false

abbrev pub status_text : Bool → Text
status_text b = if b then codes "ok" else codes "error"

module _ {W : Type 0} (open_pool ping_db ping_redis : M W (Unit {0})) where
  -- The status and the body of the answer.
  unfoldable pub check : W → (ℕ × Health) × W
  check w =
      let (pinged, w₁) = (open_pool >> ping_db) w in
      let (pong, w₂) = ping_redis w₁ in
      let up = answered pinged && answered pong in
      (
        (
          if up then 200 else 503,
          record {
            status = if up then codes "ok" else codes "degraded";
            db = status_text (answered pinged);
            redis = status_text (answered pong);
          },
        ),
        w₂,
      )
