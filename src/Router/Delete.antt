-- ===== src/Router/Delete.antt =====
-- `POST /posts/delete`, from the header to the rows.
use echo_backend.Base.{Bool, ◌≡◌, ◌∙◌, refl, false, Option, Elem}
use echo_backend.Text.{Text}
use echo_backend.Errors.{Result, ok}
use echo_backend.Effect.Rules.{bind, Ensures-mono, mapped, from_result_lem}
use echo_backend.Crypto.{Claims}
use echo_backend.Domain.{Uuid, Post}
use echo_backend.Database.{Tables, without_posts}
use echo_backend.Database.Laws.{since}
use echo_backend.Repository.Posts.Rows.{own_by_id}
use echo_backend.Service.Auth.{AuthService}
use echo_backend.Service.Auth.Session.{IsAuth}
use echo_backend.Service.Posts.Delete.{delete-own}
use echo_backend.Middleware.Gin.{Context, Verdict, next, abort}
use echo_backend.Middleware.Auth.{auth_handler}
use echo_backend.Middleware.Auth.Session.{IsLogin, IsJudged, auth_handler-IsJudged}
use echo_backend.Handler.Errors.{Binding, bound}
use echo_backend.Handler.Answers.{
  IsAnswered, IsAnswered-mono, respond_lem, with_request_lem, user_of-stored,
}
use echo_backend.Handler.Request.{user_of, as_invalid}
use echo_backend.Handler.Posts.{PostIdRequest, delete}
use echo_backend.Router.{chain, post_service, delete_route}

module _ {W : Type 0} (view : W → Tables) where
  -- What a deletion has done: the user had a visible post with this identifier, and it is gone.
  abbrev pub IsDeleted : Uuid → Uuid → W → W → Type 0
  IsDeleted user_id post_id w w' =
      ((p : Post) × Elem p (view w).posts
        × (p.id ≡ post_id)
        × (p.author_id ≡ user_id)
        × (p.is_hidden ≡ false))
      × (view w' ≡ without_posts view (own_by_id post_id user_id) (view w))

module _ {W : Type 0} (a : AuthService W) (view : W → Tables) (keys : W → Text → Option Text)
    (is_live : Claims → W → Bool) (h : IsAuth a view keys is_live)
    (broadcaster : Option (Text → W → W)) (marshal : Post → Result Text) where
  -- The request names this post.
  abbrev pub IsNamed : Binding PostIdRequest → Uuid → Type 0
  IsNamed binding post_id =
      (req : PostIdRequest) × (binding ≡ bound req) × (a.crypto.uuid_parse req.id ≡ ok post_id)

  delete_handler_lem :
      (binding : Binding PostIdRequest) (c : Context) (user_id : Uuid) (w : W)
      → user_of c ≡ ok user_id
      → IsAnswered
          (λ _ w'. (post_id : Uuid) × IsNamed binding post_id × IsDeleted view user_id post_id w w')
          (λ w'. view w' ≡ view w)
          (delete (post_service a broadcaster marshal) a.crypto.uuid_parse binding c w)
  unfolding delete post_service
  delete_handler_lem binding c user_id w e = with_request_lem _ _ binding _ w refl λ req made.
      respond_lem _ _ 200 _ w (
        bind _ _ _ _ _ w (from_result_lem view (user_of c) w) λ u w₁ h₁.
          bind _ _ _ _ _ w₁
            (mapped _ _ as_invalid _ w₁
              (since view _ w w₁ _ h₁.1 (from_result_lem view (a.crypto.uuid_parse req.id) w₁)))
            λ post_id w₂ h₂.
              let same = h₂.1 ∙ h₁.1 in
              let is_user : u ≡ user_id = cc in
              since view _ w w₂ _ same (
                Ensures-mono _ _ _ _ _ (delete-own a.db view h.database post_id u w₂)
                  (λ _ w₃ q. (post_id, (req, made, h₂.0), rw (same, is_user) at q)) (λ e w₃ q. q)))

  -- A deletion that is answered as a success came with the session, live when the middleware was
  -- asked, of a user who had a visible post with the identifier of the request, and removed that
  -- user's posts with that identifier, with their replies, reactions and reports. Any other answer
  -- left every row as it was.
  pub delete_route-own :
      (authorization : Text) (c : Context) (binding : Binding PostIdRequest) (w : W)
      → IsAnswered
          (λ _ w'.
            (claims : Claims) × (user_id : Uuid) × (post_id : Uuid) × IsLogin a.redis a.crypto
              a.secret keys view is_live authorization claims user_id w
            × IsNamed binding post_id
            × IsDeleted view user_id post_id w w')
          (λ w'. view w' ≡ view w)
          (delete_route a broadcaster marshal authorization c binding w)
  unfolding delete_route chain
  delete_route-own authorization c binding w =
      go (auth_handler a.redis a.crypto a.secret authorization c w) (
        auth_handler-IsJudged a.redis a.crypto a.secret keys view is_live h.sessions h.crypto
          h.parse_keeps authorization c w)
    where
      Deleted : Unit {0} → W → Type 0
      Deleted _ w' =
          (claims : Claims) × (user_id : Uuid) × (post_id : Uuid) × IsLogin a.redis a.crypto
            a.secret keys view is_live authorization claims user_id w
          × IsNamed binding post_id
          × IsDeleted view user_id post_id w w'

      go :
          (x : Verdict × W)
          → IsJudged a.redis a.crypto a.secret keys view is_live authorization c w x
          → IsAnswered Deleted
              (λ w'. view w' ≡ view w)
              (chain x (delete (post_service a broadcaster marshal) a.crypto.uuid_parse binding))
      go (next c', w₁) ((claims, user_id, login, kept), same) =
          IsAnswered-mono _ _ Deleted (λ w'. view w' ≡ view w) _
            (delete_handler_lem binding c' user_id w₁
              (rw kept (user_of-stored user_id claims.pseudonym claims.is_admin c)))
            (λ _ w₂ q. (claims, user_id, q.0, login, q.1, rw same at q.2)) (λ w₂ q. q ∙ same)
      go (abort _ _ _, w₁) (_, same) = same
