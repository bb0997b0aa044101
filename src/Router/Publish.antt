-- ===== src/Router/Publish.antt =====
-- `POST /posts`, from the header to the rows.
use echo_backend.Base.{◌≤◌, Bool, ◌≡◌, ◌∙◌, refl, sym, subst, ap, false, Option, List, []}
use echo_backend.Base.Int.{pos}
use echo_backend.Text.{Text, is_empty, len, trim_space, text_eq}
use echo_backend.Errors.{Result, ok}
use echo_backend.Effect.Rules.{bind, Ensures-mono, from_result_lem}
use echo_backend.Crypto.{Claims}
use echo_backend.Domain.{Uuid, Post}
use echo_backend.Database.{Tables}
use echo_backend.Database.Laws.{since}
use echo_backend.SortedSets.{SortedSets, Command}
use echo_backend.Repository.Posts.Inserts.{with_post}
use echo_backend.Service.Auth.{AuthService}
use echo_backend.Service.Auth.Session.{IsAuth}
use echo_backend.Service.Posts.Create.{create-stored, LeavesRows}
use echo_backend.Middleware.Gin.{Context, Verdict, next, abort, get}
use echo_backend.Middleware.Headers.{Headers}
use echo_backend.Middleware.Auth.{auth_handler, stored}
use echo_backend.Middleware.Auth.Session.{IsLogin, IsJudged, auth_handler-IsJudged}
use echo_backend.Middleware.RateLimit.{RateLimit, post_create}
use echo_backend.Middleware.RateLimit.Reads.{IsLet, post_create-IsLet}
use echo_backend.Handler.Errors.{Binding, bound}
use echo_backend.Handler.Answers.{
  IsAnswered, IsAnswered-mono, respond_lem, with_request_lem, user_of-stored,
}
use echo_backend.Handler.Request.{user_of, pseudonym_of}
use echo_backend.Handler.Posts.{CreatePostRequest, create}
use echo_backend.Router.{chain, post_service, create_route}

pub pseudonym_of-stored :
    (user_id : Uuid) (pseudonym : Text) (is_admin : Bool) (c : Context)
    → pseudonym_of (stored user_id pseudonym is_admin c) ≡ ok pseudonym
unfolding pseudonym_of get text_eq
pseudonym_of-stored user_id pseudonym is_admin c = refl

-- What a publication has done: one more row, a visible post of this author with a content that is
-- not empty and has at most 280 bytes.
unfoldable pub IsPublished : {W : Type 0} → (W → Tables) → Uuid → Text → W → Post → W → Type 0
IsPublished view author_id pseudonym w p w' =
    (view w' ≡ with_post p (view w))
    × (p.author_id ≡ author_id)
    × (p.pseudonym ≡ pseudonym)
    × (is_empty p.content ≡ false)
    × (len p.content ≤ 280)
    × (p.is_hidden ≡ false)
    × (p.reply_count ≡ 0)
    × (p.score ≡ pos 0)

-- The content of the post is that of the request, trimmed.
abbrev pub IsAsked : Binding CreatePostRequest → Post → Type 0
IsAsked binding p =
    (req : CreatePostRequest) × (binding ≡ bound req) × (p.content ≡ trim_space req.content)

module _ {W : Type 0} (a : AuthService W) (view : W → Tables) (keys : W → Text → Option Text)
    (is_live : Claims → W → Bool) (h : IsAuth a view keys is_live)
    (broadcaster : Option (Text → W → W)) (marshal : Post → Result Text)
    (quiet : LeavesRows view broadcaster) (store : SortedSets W) (limits : RateLimit)
    (exec_reads : (cs : List Command) (w : W) → view (store.exec cs w).1 ≡ view w) where
  create_handler_lem :
      (binding : Binding CreatePostRequest) (c : Context) (user_id : Uuid) (pseudonym : Text)
      (w : W)
      → user_of c ≡ ok user_id
      → pseudonym_of c ≡ ok pseudonym
      → IsAnswered
          (λ p w'. IsAsked binding p × IsPublished view user_id pseudonym w p w')
          (λ w'. view w' ≡ view w)
          (create (post_service a broadcaster marshal) a.crypto.uuid_parse binding c w)
  unfolding create post_service IsPublished
  create_handler_lem binding c user_id pseudonym w e f =
      with_request_lem _ _ binding _ w refl λ req made. respond_lem _ _ 201 _ w (
        bind _ _ _ _ _ w (from_result_lem view (user_of c) w) λ u w₁ h₁.
          bind _ _ _ _ _ w₁ (since view _ w w₁ _ h₁.1 (from_result_lem view (pseudonym_of c) w₁))
            λ name w₂ h₂.
              let same = h₂.1 ∙ h₁.1 in
              let is_user : u ≡ user_id = cc in
              let is_name : name ≡ pseudonym = cc in
              since view _ w w₂ _ same (
                Ensures-mono _ _ _ _ _
                  (create-stored a.db a.sys view h.database h.system broadcaster marshal quiet u
                    name req.content w₂)
                  (λ p w₃ (row, good, post). (
                    (req, made, ap (λ q. q.content) post),
                    (
                      row ∙ ap (with_post p) same,
                      ap (λ q. q.author_id) post ∙ is_user,
                      ap (λ q. q.pseudonym) post ∙ is_name,
                      ap (λ q. is_empty q.content) post ∙ good.some_byte,
                      subst (λ q. len q.content ≤ 280) (sym post) good.fits,
                      ap (λ q. q.is_hidden) post,
                      ap (λ q. q.reply_count) post,
                      ap (λ q. q.score) post,
                    ),
                  ))
                  (λ e w₃ q. q)))

  module _ (authorization : Text) (c₀ : Context) (binding : Binding CreatePostRequest) (w : W) where
    -- The post is of a user who is logged in.
    abbrev IsOfLogin : Post → W → Type 0
    IsOfLogin p w' =
        (claims : Claims) × (user_id : Uuid) × IsLogin a.redis a.crypto a.secret keys view is_live
          authorization claims user_id w
        × IsAsked binding p
        × IsPublished view user_id claims.pseudonym w p w'

    limited_lem :
        (claims : Claims) (user_id : Uuid) (c : Context) (w₁ : W) (x : (Verdict × Headers) × W)
        → IsLogin a.redis a.crypto a.secret keys view is_live authorization claims user_id w
        → c ≡ stored user_id claims.pseudonym claims.is_admin c₀
        → view w₁ ≡ view w
        → IsLet a.sys store a.crypto view h.system exec_reads c w₁ x
        → IsAnswered IsOfLogin
            (λ w'. view w' ≡ view w)
            (chain
              (x.0.0, x.1)
              (create (post_service a broadcaster marshal) a.crypto.uuid_parse binding))
    unfolding chain IsPublished
    limited_lem claims user_id c w₁ ((next c', _), w₂) login kept same (passed, same₂) =
        IsAnswered-mono _ _ IsOfLogin (λ w'. view w' ≡ view w) _
          (create_handler_lem binding c' user_id claims.pseudonym w₂
            (rw (passed, kept) (user_of-stored user_id claims.pseudonym claims.is_admin c₀))
            (rw (passed, kept) (pseudonym_of-stored user_id claims.pseudonym claims.is_admin c₀)))
          (λ p w₃ (asked, (row, author, name, some_byte, fits, shown, no_reply, no_score)). (
            claims,
            user_id,
            login,
            asked,
            (
              row ∙ ap (with_post p) (same₂ ∙ same),
              author,
              name,
              some_byte,
              fits,
              shown,
              no_reply,
              no_score,
            ),
          ))
          (λ w₃ q. q ∙ same₂ ∙ same)
    limited_lem claims user_id c w₁ ((abort _ _ _, _), w₂) login kept same same₂ = same₂ ∙ same

    -- Where announcements and the pipelines of Redis leave the rows alone: a post that is answered
    -- as created came with the session of a user, live when the middleware was asked, and is one
    -- more row and the only change: it has that user as its author, the pseudonym of the token and
    -- the content of the request, trimmed, of 1 to 280 bytes, no reply and a score of 0, and is
    -- visible. Any other answer, that of the rate limit included, left every row as it was.
    pub create_route-published :
        IsAnswered IsOfLogin
          (λ w'. view w' ≡ view w)
          (create_route a broadcaster marshal store limits authorization c₀ binding w)
    unfolding create_route chain
    create_route-published = go (auth_handler a.redis a.crypto a.secret authorization c₀ w) (
        auth_handler-IsJudged a.redis a.crypto a.secret keys view is_live h.sessions h.crypto
          h.parse_keeps authorization c₀ w)
      where
        go :
            (x : Verdict × W)
            → IsJudged a.redis a.crypto a.secret keys view is_live authorization c₀ w x
            → IsAnswered IsOfLogin
                (λ w'. view w' ≡ view w)
                (chain x (λ c w'.
                  let ((verdict, _), w'') =
                    post_create a.sys store a.crypto limits authorization [] c w' in
                  chain
                    (verdict, w'')
                    (create (post_service a broadcaster marshal) a.crypto.uuid_parse binding)))
        go (next c, w₁) ((claims, user_id, login, kept), same) =
            limited_lem claims user_id c w₁ _ login kept same (
              post_create-IsLet a.sys store a.crypto view h.system exec_reads limits authorization
                [] c w₁)
        go (abort _ _ _, w₁) (_, same) = same
