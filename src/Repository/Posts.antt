-- ===== src/Repository/Posts.antt =====
-- internal/repository/post.go
pub mod Rows
pub mod Upsert
pub mod Inserts
use echo_backend.Base.{ℕ, ◌+◌, Bool, true, false, not, ◌&&◌, List, ◌==◌, ltb, if◌then◌else◌}
use echo_backend.Base.Int.{ℤ, pos, negsuc, ◌+ℤ◌, ◌-ℤ◌}
use echo_backend.Errors.{Error, sentinel, not_found, record_not_found, is_error, Result, ok, err}
use echo_backend.Effect.{M, pure, fail, reject_if, ◌>>=◌, ◌>>◌, attempt, map_error, total}
use echo_backend.Domain.{Uuid, Post, Reply, Reaction, ReactionKind, upvote, kind_eq}
use echo_backend.Database.{Database}
use echo_backend.System.{System, or_new, or_now}

-- `gorm.ErrRecordNotFound` becomes `domain.ErrNotFound`; other errors pass.
unfoldable pub absent_as_not_found : Error → Error
absent_as_not_found e = if is_error e record_not_found then sentinel not_found else e

unfoldable pub reaction_value : ReactionKind → ℤ
reaction_value upvote = pos 1
reaction_value _ = negsuc 0

abbrev pub is_zero : ℤ → Bool
is_zero (pos n) = n == 0
is_zero (negsuc _) = false

-- The test of `WHERE post_id = ? AND user_id = ?`.
abbrev pub by_user : Uuid → Uuid → Reaction → Bool
by_user post_id user_id r = r.post_id == post_id && r.user_id == user_id

abbrev pub add_reply : Post → Post
add_reply p = record p { reply_count = p.reply_count + 1 }

abbrev pub add_score : ℤ → Post → Post
add_score delta p = record p { score = p.score +ℤ delta }

module _ {W : Type 0} (db : Database W) where
  unfoldable pub delete_by_author : Uuid → Uuid → M W (Unit {0})
  delete_by_author post_id author_id = do
    rows_affected ← db.delete_posts (λ p. p.id == post_id && p.author_id == author_id)
    reject_if (rows_affected == 0) not_found

  unfoldable pub get_by_id : Uuid → M W Post
  unfolding absent_as_not_found
  get_by_id post_id =
      map_error absent_as_not_found (db.posts.first (λ p. p.id == post_id && not p.is_hidden))

  unfoldable pub set_hidden : Uuid → Bool → M W (Unit {0})
  set_hidden post_id hidden = do
    rows_affected ← db.posts.update (λ p. p.id == post_id) (λ p. record p { is_hidden = hidden })
    reject_if (rows_affected == 0) not_found

  unfoldable pub list_replies : Uuid → ℤ → M W (List Reply)
  list_replies post_id limit =
      db.replies.find (λ r. r.post_id == post_id) (λ r s. ltb r.created_at s.created_at) limit
        (pos 0)

  -- The first reaction of the user to the post, or a change of it: what the score moves by.
  unfoldable pub score_delta : Uuid → Uuid → ReactionKind → Result Reaction → M W ℤ
  unfolding reaction_value
  score_delta post_id user_id kind (err e) =
      if is_error e record_not_found
      then (do
        db.create_reaction
            (record { user_id = user_id; post_id = post_id; kind = kind; created_at = 0 })
        rows_affected ← total (λ w. (db.handle_rows_affected w, w))
        pure (if ltb 0 rows_affected then reaction_value kind else pos 0))
      else fail e
  score_delta post_id user_id kind (ok existing) =
      if not (kind_eq existing.kind kind)
      then (do
        _ ← db.reactions.update (by_user post_id user_id) (λ r. record r { kind = kind })
        pure (reaction_value kind -ℤ reaction_value existing.kind))
      else pure (pos 0)

  -- `if scoreDelta != 0`
  unfoldable pub add_to_score : Uuid → ℤ → M W (Unit {0})
  add_to_score post_id delta =
      if is_zero delta
      then pure tt
      else (do _ ← db.posts.update (λ p. p.id == post_id) (add_score delta); pure tt)

  unfoldable pub upsert_body : Uuid → Uuid → ReactionKind → M W (Unit {0})
  unfolding score_delta add_to_score
  upsert_body post_id user_id kind = do
    existing ← attempt (db.reactions.first (by_user post_id user_id))
    delta ← score_delta post_id user_id kind existing
    add_to_score post_id delta

  unfoldable pub upsert_reaction : Uuid → Uuid → ReactionKind → M W (Unit {0})
  upsert_reaction post_id user_id kind = db.transaction Unit (upsert_body post_id user_id kind)

module _ {W : Type 0} (db : Database W) (sys : System W) where
  -- The Go method fills in the fields of the caller's post: here it is the result.
  unfoldable pub create : Post → M W Post
  create post = do
    id ← or_new sys post.id
    created_at ← or_now sys post.created_at
    let filled : Post = record post { id = id; created_at = created_at }
    db.posts.create filled
    pure filled

  -- The body of the transaction in `CreateReply`.
  unfoldable pub create_reply_body : Reply → M W (Unit {0})
  create_reply_body reply = do
    db.replies.create reply
    _ ← db.posts.update (λ p. p.id == reply.post_id) add_reply
    pure tt

  unfoldable pub create_reply : Reply → M W Reply
  create_reply reply = do
    id ← or_new sys reply.id
    created_at ← or_now sys reply.created_at
    let filled : Reply = record reply { id = id; created_at = created_at }
    db.transaction Unit (create_reply_body filled)
    pure filled
