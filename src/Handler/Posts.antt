-- ===== src/Handler/Posts.antt =====
-- internal/handler/post.go, reply.go and reaction.go
use echo_backend.Base.{List}
use echo_backend.Base.Int.{ℤ}
use echo_backend.Text.{Text}
use echo_backend.Errors.{Result}
use echo_backend.Effect.{◌>>=◌, map_error, from_result}
use echo_backend.Domain.{Uuid, Post, Reply, ReactionKind}
use echo_backend.Middleware.Gin.{Context}
use echo_backend.Handler.Errors.{Response, Binding, respond, with_request}
use echo_backend.Handler.Services.{PostService}
use echo_backend.Handler.Request.{user_of, pseudonym_of, as_invalid, page_limit}

pub record CreatePostRequest : Type 0 where
  pub content : Text

pub record PostIdRequest : Type 0 where
  pub id : Text

pub record ReactRequest : Type 0 where
  pub post_id : Text
  pub kind : ReactionKind

pub record CreateReplyRequest : Type 0 where
  pub post_id : Text
  pub content : Text

pub record ListRepliesRequest : Type 0 where
  pub post_id : Text
  pub limit : ℤ

-- `uuid.Parse` is a parameter.
module _ {W : Type 0} (posts : PostService W) (uuid_parse : Text → Result Uuid) where
  unfoldable pub create : Binding CreatePostRequest → Context → W → Response Post × W
  unfolding user_of pseudonym_of
  create binding c = with_request binding λ req.
      respond 201 (λ post. post)
        (do
          user_id ← from_result (user_of c)
          pseudonym ← from_result (pseudonym_of c)
          posts.create user_id pseudonym req.content)

  unfoldable pub delete : Binding PostIdRequest → Context → W → Response (Unit {0}) × W
  unfolding user_of
  delete binding c = with_request binding λ req.
      respond 200 (λ done. done)
        (do
          user_id ← from_result (user_of c)
          post_id ← map_error as_invalid (from_result (uuid_parse req.id))
          posts.delete post_id user_id)

  unfoldable pub get_by_id : Binding PostIdRequest → W → Response Post × W
  get_by_id binding = with_request binding λ req.
      respond 200 (λ post. post)
        (do
          post_id ← map_error as_invalid (from_result (uuid_parse req.id))
          posts.get_by_id post_id)

  unfoldable pub react : Binding ReactRequest → Context → W → Response (Unit {0}) × W
  unfolding user_of
  react binding c = with_request binding λ req.
      respond 200 (λ done. done)
        (do
          post_id ← map_error as_invalid (from_result (uuid_parse req.post_id))
          user_id ← from_result (user_of c)
          posts.react post_id user_id req.kind)

  unfoldable pub create_reply : Binding CreateReplyRequest → Context → W → Response Reply × W
  unfolding user_of pseudonym_of
  create_reply binding c = with_request binding λ req.
      respond 201 (λ reply. reply)
        (do
          post_id ← map_error as_invalid (from_result (uuid_parse req.post_id))
          user_id ← from_result (user_of c)
          pseudonym ← from_result (pseudonym_of c)
          posts.create_reply post_id user_id pseudonym req.content)

  unfoldable pub list_replies : Binding ListRepliesRequest → W → Response (List Reply) × W
  list_replies binding = with_request binding λ req.
      respond 200 (λ replies. replies)
        (do
          post_id ← map_error as_invalid (from_result (uuid_parse req.post_id))
          posts.list_replies post_id (page_limit req.limit))
