-- ===== src/Repository/Posts/Inserts.antt =====
-- What `Create` and `CreateReply` of internal/repository/post.go add to the rows.
use echo_backend.Base.{◌+◌, ◌≡◌, ◌∙◌, refl, ap, ◌++◌, [], ◌∷◌, ◌==◌, rewrite}
use echo_backend.Effect.{Ensures}
use echo_backend.Effect.Rules.{bind, returned}
use echo_backend.Domain.{Uuid, Time, Post, Reply}
use echo_backend.Database.{Database, Tables, IsDatabase}
use echo_backend.Database.Laws.{since, anyway, transacted}
use echo_backend.System.{System, IsSystem}
use echo_backend.System.Laws.{or_new_lem, or_now_lem}
use echo_backend.Repository.Posts.{create, create_reply_body, create_reply, add_reply}

-- The post as it is stored, with the fields that the repository fills in.
abbrev pub stored_post : Post → Uuid → Time → Post
stored_post post id at = record post { id = id; created_at = at }

abbrev pub stored_reply : Reply → Uuid → Time → Reply
stored_reply reply id at = record reply { id = id; created_at = at }

abbrev pub with_post : Post → Tables → Tables
with_post post t = record t { posts = t.posts ++ post ∷ [] }

abbrev counted : Uuid → Tables → Tables
counted post_id t = record t { posts = rewrite (λ p. p.id == post_id) add_reply t.posts }

-- A reply and its count come together.
abbrev pub with_reply : Reply → Tables → Tables
with_reply reply t = record t {
  replies = t.replies ++ reply ∷ [];
  posts =
      rewrite (λ p. p.id == reply.post_id) (λ p. record p { reply_count = p.reply_count + 1 })
        t.posts;
}

module _ {W : Type 0} (db : Database W) (sys : System W) (view : W → Tables)
    (d : IsDatabase view db) (s : IsSystem view sys) where
  pub create_lem :
      (post : Post) (w : W)
      → Ensures
          (λ p w'. (p ≡ stored_post post p.id p.created_at) × (view w' ≡ with_post p (view w)))
          (λ _ w'. view w' ≡ view w)
          (create db sys post w)
  unfolding create
  create_lem post w = bind _ _ _ _ _ w (or_new_lem view sys s _ post.id w) λ id w₁ h₁.
      bind _ _ _ _ _ w₁ (or_now_lem view sys s _ post.created_at w₁) λ at w₂ h₂.
        let same = h₂.0 ∙ h₁.0 in
        let law = d.posts_table.create_lem (stored_post post id at) w₂ in
        bind _ _ _ _ _ w₂ (since view _ w w₂ _ same law)
          λ _ w₃ h₃. returned _ _ _ _ (refl, h₃ ∙ ap (with_post (stored_post post id at)) same)

  create_reply_body_lem :
      (reply : Reply) (w : W)
      → Ensures
          (λ _ w'. view w' ≡ with_reply reply (view w))
          (λ _ _. Unit {0})
          (create_reply_body db sys reply w)
  unfolding create_reply_body
  create_reply_body_lem reply w =
      bind _ _ _ _ _ w (anyway _ _ _ (d.replies_table.create_lem reply w)) λ _ w₁ h₁.
        bind _ _ _ _ _ w₁
          (anyway _ _ _ (d.posts_table.update_lem (λ p. p.id == reply.post_id) add_reply w₁))
          λ _ w₂ h₂. returned _ _ _ _ (h₂.1 ∙ ap (counted reply.post_id) h₁)

  -- The reply and its count are stored together or not at all.
  pub create_reply_lem :
      (reply : Reply) (w : W)
      → Ensures
          (λ r w'. (r ≡ stored_reply reply r.id r.created_at) × (view w' ≡ with_reply r (view w)))
          (λ _ w'. view w' ≡ view w)
          (create_reply db sys reply w)
  unfolding create_reply
  create_reply_lem reply w = bind _ _ _ _ _ w (or_new_lem view sys s _ reply.id w) λ id w₁ h₁.
      bind _ _ _ _ _ w₁ (or_now_lem view sys s _ reply.created_at w₁) λ at w₂ h₂.
        let same = h₂.0 ∙ h₁.0 in
        let stored = stored_reply reply id at in
        bind _ _ _ _ _ w₂
          (since view _ w w₂ _ same (
            transacted db view d _ _ (λ _ t t'. t' ≡ with_reply stored t) w₂
              (create_reply_body_lem stored)))
          λ _ w₃ h₃. returned _ _ _ _ (refl, h₃ ∙ ap (with_reply stored) same)
