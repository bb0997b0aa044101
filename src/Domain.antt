-- ===== src/Domain.antt =====
-- internal/domain: the entities. A UUID is its 128 bits as a number, `uuid.Nil` is 0. An instant is
-- the nanoseconds since the zero `time.Time` (year 1), so `IsZero` is the test for 0.
use echo_backend.Base.{ℕ, Bool, true, false, Option}
use echo_backend.Base.Int.{ℤ}
use echo_backend.Text.{Text, text_eq}

abbrev pub Uuid : Type 0
Uuid = ℕ

abbrev pub Time : Type 0
Time = ℕ

-- The string type with its two constants; `other_kind` is any text but those of the constants.
pub data ReactionKind : Type 0 where
  upvote downvote : ReactionKind
  other_kind : Text → ReactionKind

unfoldable pub kind_eq : ReactionKind → ReactionKind → Bool
kind_eq upvote upvote = true
kind_eq downvote downvote = true
kind_eq (other_kind s) (other_kind t) = text_eq s t
kind_eq _ _ = false

pub record Post : Type 0 where
  pub id : Uuid
  pub author_id : Uuid
  pub pseudonym : Text
  pub content : Text
  pub is_hidden : Bool
  pub reply_count : ℕ
  pub score : ℤ
  pub created_at : Time

pub record Reply : Type 0 where
  pub id : Uuid
  pub post_id : Uuid
  pub author_id : Uuid
  pub pseudonym : Text
  pub content : Text
  pub created_at : Time

pub record Reaction : Type 0 where
  pub user_id : Uuid
  pub post_id : Uuid
  pub kind : ReactionKind
  pub created_at : Time

pub record FeedCursor : Type 0 where
  pub created_at : Time

pub data ReportStatus : Type 0 where
  open_report resolved_report : ReportStatus
  other_status : Text → ReportStatus

-- `no_action` is the empty text of a report that nobody has reviewed.
pub data ModerationAction : Type 0 where
  no_action dismiss hide ban : ModerationAction
  other_action : Text → ModerationAction

pub record Report : Type 0 where
  pub id : Uuid
  pub post_id : Uuid
  pub reporter_id : Uuid
  pub reason : Text
  pub status : ReportStatus
  pub action : ModerationAction
  pub action_note : Text
  pub reviewed_by : Option Uuid
  pub reviewed_at : Option Time
  pub created_at : Time

pub record User : Type 0 where
  pub id : Uuid
  pub pseudonym : Text
  pub token_hash : Text
  pub is_admin : Bool
  pub created_at : Time
  pub expires_at : Time

abbrev pub is_open : ReportStatus → Bool
is_open open_report = true
is_open resolved_report = false
is_open (other_status _) = false
