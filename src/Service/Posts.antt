-- ===== src/Service/Posts.antt =====
-- internal/service/post.go
pub mod Delete
pub mod Votes
pub mod Counts
pub mod Tally
pub mod Create
use echo_backend.Base.{false, not, ◌&&◌, Option, none, some, List, ◌==◌}
use echo_backend.Base.Int.{ℤ, pos}
use echo_backend.Text.{Text, is_empty, trim_space}
use echo_backend.Errors.{unauthorized, invalid_input, Result, ok, err}
use echo_backend.Effect.{M, pure, reject_if, ◌>>=◌, ◌>>◌, total}
use echo_backend.Domain.{Uuid, Post, Reply, ReactionKind, upvote, downvote, kind_eq}
use echo_backend.Database.{Database}
use echo_backend.System.{System}
use echo_backend.Repository.Posts
use echo_backend.Service.Limits.{clamp_limit, bad_length}

module _ {W : Type 0} (db : Database W) where
  unfoldable pub delete : Uuid → Uuid → M W (Unit {0})
  delete post_id author_id = do
    post ← Posts.get_by_id db post_id
    reject_if (not (post.author_id == author_id)) unauthorized
    Posts.delete_by_author db post_id author_id

  unfoldable pub get_by_id : Uuid → M W Post
  get_by_id post_id = Posts.get_by_id db post_id

  unfoldable pub react : Uuid → Uuid → ReactionKind → M W (Unit {0})
  react post_id user_id kind = do
    reject_if (not (kind_eq kind upvote) && not (kind_eq kind downvote)) invalid_input
    _ ← Posts.get_by_id db post_id
    Posts.upsert_reaction db post_id user_id kind

  unfoldable pub list_replies : Uuid → ℤ → M W (List Reply)
  list_replies post_id limit = do
    _ ← Posts.get_by_id db post_id
    Posts.list_replies db post_id (clamp_limit limit)

module _ {W : Type 0} (db : Database W) (sys : System W) where
  unfoldable pub create_reply : Uuid → Uuid → Text → Text → M W Reply
  create_reply post_id author_id pseudonym content = do
    let trimmed = trim_space content
    reject_if (bad_length 280 trimmed) invalid_input
    reject_if (is_empty (trim_space pseudonym)) invalid_input
    _ ← Posts.get_by_id db post_id
    id ← total sys.new_uuid
    Posts.create_reply db sys (record {
      id = id;
      post_id = post_id;
      author_id = author_id;
      pseudonym = pseudonym;
      content = trimmed;
      created_at = 0;
    })

-- `PostBroadcaster`, which may be nil, and `json.Marshal` of a post.
module _ {W : Type 0} (broadcaster : Option (Text → W → W)) (marshal : Post → Result Text) where
  -- A post whose JSON cannot be made is not announced.
  unfoldable pub announce : Post → W → W
  announce post w = elim broadcaster [
    | none ↦ w
    | some broadcast ↦ elim (marshal post) [ ok payload ↦ broadcast payload w | err _ ↦ w ]
  ]

  module _ (db : Database W) (sys : System W) where
    unfoldable pub create : Uuid → Text → Text → M W Post
    unfolding announce
    create author_id pseudonym content = do
      let trimmed = trim_space content
      reject_if (bad_length 280 trimmed) invalid_input
      reject_if (is_empty (trim_space pseudonym)) invalid_input
      id ← total sys.new_uuid
      post ← Posts.create db sys (record {
        id = id;
        author_id = author_id;
        pseudonym = pseudonym;
        content = trimmed;
        is_hidden = false;
        reply_count = 0;
        score = pos 0;
        created_at = 0;
      })
      total (λ w. (tt, announce post w))
      pure post
