-- ===== src/Handler/Services.antt =====
-- The service interfaces of internal/domain, which the handlers call.
use echo_backend.Base.{Bool, Option, List}
use echo_backend.Base.Int.{ℤ}
use echo_backend.Text.{Text}
use echo_backend.Effect.{M}
use echo_backend.Domain.{Uuid, Post, Reply, Report, FeedCursor, ReactionKind, ModerationAction}

pub record PostService (W : Type 0) : Type 0 where
  pub create : Uuid → Text → Text → M W Post
  pub delete : Uuid → Uuid → M W (Unit {0})
  pub get_by_id : Uuid → M W Post
  pub react : Uuid → Uuid → ReactionKind → M W (Unit {0})
  pub create_reply : Uuid → Uuid → Text → Text → M W Reply
  pub list_replies : Uuid → ℤ → M W (List Reply)

pub record ReportService (W : Type 0) : Type 0 where
  pub create : Uuid → Uuid → Text → M W Bool
  pub list_open : ℤ → ℤ → M W (List Report)
  pub act : Uuid → Uuid → ModerationAction → Text → M W (Unit {0})

pub record FeedService (W : Type 0) : Type 0 where
  pub latest : ℤ → Option FeedCursor → M W (List Post × Option FeedCursor)
  pub trending : ℤ → M W (List Post)

pub record SessionService (W : Type 0) : Type 0 where
  pub register : M W (Text × Text)
  pub refresh : Text → M W Text
