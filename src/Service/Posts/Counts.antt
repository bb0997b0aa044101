-- ===== src/Service/Posts/Counts.antt =====
-- The reply counts that `CreateReply` keeps.
use echo_backend.Base.{◌≡◌, [], ◌∷◌, ◌++◌, ◌==◌, arith, All, count, All-rewrite, count-append}
use echo_backend.Text.{Text}
use echo_backend.Effect.{Ensures}
use echo_backend.Effect.Rules.{Ensures-mono}
use echo_backend.Domain.{Uuid, Reply}
use echo_backend.Database.{Database, Tables, IsDatabase}
use echo_backend.System.{System, IsSystem}
use echo_backend.Repository.Posts.{add_reply}
use echo_backend.Repository.Posts.Inserts.{with_reply}
use echo_backend.Service.Posts.{create_reply}
use echo_backend.Service.Posts.Create.{create_reply-stored}

-- Every post's `reply_count` is the number of its replies.
abbrev pub IsCounted : Tables → Type 0
IsCounted t = All (λ p. p.reply_count ≡ count (λ (r : Reply). r.post_id == p.id) t.replies) t.posts

with_reply-IsCounted : (r : Reply) (t : Tables) → IsCounted t → IsCounted (with_reply r t)
with_reply-IsCounted r t h =
    All-rewrite (λ p. p.id == r.post_id)
      (λ p. p.reply_count ≡ count (λ (q : Reply). q.post_id == p.id) t.replies)
      (λ p. p.reply_count ≡ count (λ (q : Reply). q.post_id == p.id) (t.replies ++ r ∷ []))
      add_reply t.posts h
      (λ p e own.
        ground (arith, count-append (λ (q : Reply). q.post_id == p.id) t.replies (r ∷ [])))
      (λ p e other.
        ground (arith, count-append (λ (q : Reply). q.post_id == p.id) t.replies (r ∷ [])))

module _ {W : Type 0} (db : Database W) (sys : System W) (view : W → Tables)
    (d : IsDatabase view db) (s : IsSystem view sys) where
  -- Where every post's reply count is the number of its replies, it stays so when a reply is made,
  -- whether that succeeds or fails.
  pub create_reply-IsCounted :
      (post_id author_id : Uuid) (pseudonym content : Text) (w : W)
      → IsCounted (view w)
      → Ensures
          (λ _ w'. IsCounted (view w'))
          (λ _ w'. IsCounted (view w'))
          (create_reply db sys post_id author_id pseudonym content w)
  create_reply-IsCounted post_id author_id pseudonym content w h =
      Ensures-mono _ _ _ _ _
        (create_reply-stored db sys view d s post_id author_id pseudonym content w)
        (λ r w' q. rw q.0 (with_reply-IsCounted r (view w) h)) (λ e w' same. rw same h)
