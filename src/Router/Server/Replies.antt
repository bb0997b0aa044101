-- ===== src/Router/Server/Replies.antt =====
-- `POST /posts/replies/create`, from the request to the rows.
use echo_backend.Base.{◌≡◌, ◌∙◌, refl, Bool, true, Option, Elem}
use echo_backend.Text.{Text, trim_space}
use echo_backend.Errors.{ok}
use echo_backend.Effect.Rules.{bind, Ensures-mono, mapped, from_result_lem}
use echo_backend.Crypto.{Claims}
use echo_backend.Database.{Tables}
use echo_backend.Database.Laws.{since}
use echo_backend.Domain.{Uuid, Post, Reply}
use echo_backend.Repository.Posts.Inserts.{with_reply}
use echo_backend.Repository.Posts.Rows.{visible_by_id}
use echo_backend.Service.Posts.Create.{IsContent, create_reply-stored}
use echo_backend.Middleware.Gin.{Context}
use echo_backend.Middleware.Auth.{stored}
use echo_backend.Handler.Errors.{Binding, bound}
use echo_backend.Handler.Answers.{
  IsAnswered, IsAnswered-mono, respond_lem, with_request_lem, user_of-stored,
}
use echo_backend.Handler.Request.{user_of, pseudonym_of, as_invalid}
use echo_backend.Handler.Posts.{CreateReplyRequest, create_reply}
use echo_backend.Router.{post_service}
use echo_backend.Router.Publish.{pseudonym_of-stored}
use echo_backend.Router.Shared.{Request}
use echo_backend.Router.Routes.{Route, routes, create_reply as reply_endpoint}
use echo_backend.Router.Server.{Server, Body, reply_body, posts, handle, serve}
use echo_backend.Router.Server.Readings.{IsServer}
use echo_backend.Router.Server.Access.{HasLogin}
use echo_backend.Router.Server.Ends.{IsSent, answered-IsSent}
use echo_backend.Router.Server.Members.{serve-member}

module _ {W C : Type 0} (s : Server W C) (view : W → Tables) (keys : W → Text → Option Text)
    (is_live : Claims → W → Bool) (h : IsServer s view keys is_live) where
  -- What a reply has done: the one that the request asks for, by this user.
  abbrev pub IsReplied : Binding CreateReplyRequest → Uuid → Text → W → Reply → W → Type 0
  IsReplied binding user_id pseudonym w r w' =
      (req : CreateReplyRequest) × (post_id : Uuid) × (binding ≡ bound req)
      × (s.auth.crypto.uuid_parse req.post_id ≡ ok post_id)
      × (view w' ≡ with_reply r (view w))
      × IsContent pseudonym req.content
      × ((p : Post) × Elem p (view w).posts × (visible_by_id post_id p ≡ true))
      × (r ≡ record {
        id = r.id;
        post_id = post_id;
        author_id = user_id;
        pseudonym = pseudonym;
        content = trim_space req.content;
        created_at = r.created_at;
      })

  create_reply_handler_lem :
      (binding : Binding CreateReplyRequest) (c : Context) (user_id : Uuid) (pseudonym : Text)
      (w : W)
      → user_of c ≡ ok user_id
      → pseudonym_of c ≡ ok pseudonym
      → IsAnswered
          (λ r w'. IsReplied binding user_id pseudonym w r w')
          (λ w'. view w' ≡ view w)
          (create_reply (posts s) s.auth.crypto.uuid_parse binding c w)
  unfolding create_reply post_service
  create_reply_handler_lem binding c user_id pseudonym w e f =
      with_request_lem _ _ binding _ w refl λ req made. respond_lem _ _ 201 _ w (
        bind _ _ _ _ _ w
          (mapped _ _ as_invalid _ w
            (from_result_lem view (s.auth.crypto.uuid_parse req.post_id) w))
          λ post_id w₁ h₁.
            bind _ _ _ _ _ w₁ (since view _ w w₁ _ h₁.1 (from_result_lem view (user_of c) w₁))
              λ u w₂ h₂.
                let same₂ = h₂.1 ∙ h₁.1 in
                bind _ _ _ _ _ w₂
                  (since view _ w w₂ _ same₂ (from_result_lem view (pseudonym_of c) w₂))
                  λ name w₃ h₃.
                    let same = h₃.1 ∙ same₂ in
                    let is_user : u ≡ user_id = cc in
                    let is_name : name ≡ pseudonym = cc in
                    since view _ w w₃ _ same (
                      Ensures-mono _ _ _ _ _
                        (create_reply-stored s.auth.db s.auth.sys view h.auth.database h.auth.system
                          post_id u name req.content w₃)
                        (λ r w₄ q.
                          let (row, good, shown, whole) = rw (same, is_user, is_name) at q in
                          (req, post_id, made, h₁.0, row, good, shown, whole))
                        (λ e w₄ q. q)))

  module _ (route : Route) (r : Request) (body : Text) (w : W) where
    -- A success with a reply, of the user who is logged in.
    abbrev pub HasReplied : Body → W → Type 0
    HasReplied b w' =
        (reply : Reply) × (claims : Claims) × (user_id : Uuid) × (b ≡ reply_body reply)
        × HasLogin s view keys is_live h r w claims user_id
        × IsReplied (s.bindings.create_reply body) user_id claims.pseudonym w reply w'

    -- Where the clock, the pipelines of Redis and the parsing of a token leave the sessions in
    -- Redis alone: for a request to the route `POST /posts/replies/create`, through the shared
    -- middleware and that of the route: a success came with the session of a user: the
    -- `Authorization` header has a token that is accepted, and the session that the user has in
    -- Redis answers to it, both when the shared middleware has let the request pass, which leaves
    -- the keys of Redis as the request found them. Its body is the reply, which is one more row: to
    -- the post that the request names, which is visible, by that user, with the pseudonym of the
    -- token and the content of the request, trimmed, of 1 to 280 bytes. The reply count of the post
    -- grows by one, and no other row changes. Anything else that is sent left every row as it was.
    pub serve-IsReplied :
        Elem route routes
        → route.endpoint ≡ reply_endpoint
        → IsSent HasReplied (λ w'. view w' ≡ view w) (serve s route r body w)
    unfolding handle
    serve-IsReplied listed named =
        serve-member s view keys is_live h HasReplied (λ w'. view w' ≡ view w) reply_endpoint route
          r body w listed named refl (λ w₁ same. same)
          λ claims user_id c response w₁ login same.
            answered-IsSent HasReplied (λ w'. view w' ≡ view w) reply_body response
              (create_reply (posts s) s.auth.crypto.uuid_parse (s.bindings.create_reply body)
                (stored user_id claims.pseudonym claims.is_admin c) w₁)
              (IsAnswered-mono _ (λ w'. view w' ≡ view w₁) (λ a w'. HasReplied (reply_body a) w')
                (λ w'. view w' ≡ view w) _
                (create_reply_handler_lem (s.bindings.create_reply body)
                  (stored user_id claims.pseudonym claims.is_admin c) user_id claims.pseudonym w₁
                  (user_of-stored user_id claims.pseudonym claims.is_admin c)
                  (pseudonym_of-stored user_id claims.pseudonym claims.is_admin c))
                (λ reply w₂ q. (reply, claims, user_id, refl, login, rw same at q))
                (λ w₂ q. q ∙ same))
