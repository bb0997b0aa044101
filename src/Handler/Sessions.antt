-- ===== src/Handler/Sessions.antt =====
-- internal/handler/auth.go
use echo_backend.Text.{Text}
use echo_backend.Handler.Errors.{Response, Binding, respond, with_request}
use echo_backend.Handler.Services.{SessionService}

pub record RefreshRequest : Type 0 where
  pub token : Text

module _ {W : Type 0} (sessions : SessionService W) where
  -- The body has the token and the pseudonym.
  unfoldable pub register : W → Response (Text × Text) × W
  register = respond 201 (λ body. body) sessions.register

  unfoldable pub refresh : Binding RefreshRequest → W → Response Text × W
  refresh binding =
      with_request binding λ req. respond 200 (λ token. token) (sessions.refresh req.token)
