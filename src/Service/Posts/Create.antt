-- ===== src/Service/Posts/Create.antt =====
-- `Create` and `CreateReply` of internal/service/post.go: what is stored, and what is refused.
use echo_backend.Base.{
  ℕ, ◌≤◌, ◌<◌, ◌≡◌, ◌∙◌, refl, ap, true, false, ◌⊎◌, inl, inr, Option, none, some, arith, Elem,
}
use echo_backend.Base.Int.{pos}
use echo_backend.Text.{Text, is_empty, len, trim_space}
use echo_backend.Errors.{Result, ok, err, sentinel, invalid_input}
use echo_backend.Effect.{Ensures, ◌>>=◌, reject_if}
use echo_backend.Effect.Rules.{bind, guarded, returned, Ensures-mono}
use echo_backend.Domain.{Uuid, Post}
use echo_backend.Database.{Database, Tables, IsDatabase}
use echo_backend.Database.Laws.{since}
use echo_backend.System.{System, IsSystem}
use echo_backend.Repository.Posts.Rows.{visible_by_id, get_by_id-Gets}
use echo_backend.Repository.Posts.Inserts.{create_lem, create_reply_lem, with_post, with_reply}
use echo_backend.Service.Limits.{bad_length}
use echo_backend.Service.Posts.{announce, create, create_reply}

-- A content that the services accept: after trimming 1 to 280 bytes, and a pseudonym that is not
-- blank.
pub record IsContent (pseudonym content : Text) : Type 0 where
  pub some_byte : is_empty (trim_space content) ≡ false
  pub fits : len (trim_space content) ≤ 280
  pub named : is_empty (trim_space pseudonym) ≡ false

bad_length-false :
    (max : ℕ) (t : Text) → bad_length max t ≡ false → (is_empty t ≡ false) × (len t ≤ max)
unfolding bad_length
bad_length-false max t h = ground arith

accepted :
    (pseudonym content : Text)
    → bad_length 280 (trim_space content) ≡ false
    → is_empty (trim_space pseudonym) ≡ false
    → IsContent pseudonym content
accepted pseudonym content good named = record {
  some_byte = (bad_length-false 280 _ good).0;
  fits = (bad_length-false 280 _ good).1;
  named = named;
}

-- What is wrong with a content that is refused.
abbrev pub IsRefused : Text → Text → Type 0
IsRefused pseudonym content =
    (is_empty (trim_space content) ≡ true)
    ⊎ ((280 < len (trim_space content)) ⊎ (is_empty (trim_space pseudonym) ≡ true))

-- The broadcaster, if there is one, leaves every row alone.
abbrev pub LeavesRows : {W : Type 0} → (W → Tables) → Option (Text → W → W) → Type 0
LeavesRows view none = Unit
LeavesRows {W} view (some b) = (payload : Text) (w : W) → view (b payload w) ≡ view w

module _ {W : Type 0} (view : W → Tables) (broadcaster : Option (Text → W → W))
    (marshal : Post → Result Text) where
  announce_reads :
      (post : Post) (w : W)
      → LeavesRows view broadcaster
      → view (announce broadcaster marshal post w) ≡ view w
  unfolding announce
  announce_reads post w h = go broadcaster (marshal post) h
    where
      go :
          (b : Option (Text → W → W)) (r : Result Text)
          → LeavesRows view b
          → view (elim b [
            | none ↦ w
            | some broadcast ↦ elim r [ ok payload ↦ broadcast payload w | err _ ↦ w ]
          ])
            ≡ view w
      go none r h = refl
      go (some b) (ok payload) h = h payload w
      go (some b) (err _) h = refl

module _ {W : Type 0} (db : Database W) (sys : System W) (view : W → Tables)
    (d : IsDatabase view db) (s : IsSystem view sys) where
  -- A reply that is created is one more row, and the reply count of its post grows by one; no other
  -- row changes. The post is visible when the reply is made. The reply has the author and pseudonym
  -- of the call and the trimmed content, of 1 to 280 bytes. A creation that fails changes no row.
  pub create_reply-stored :
      (post_id author_id : Uuid) (pseudonym content : Text) (w : W)
      → Ensures
          (λ r w'.
            (view w' ≡ with_reply r (view w))
            × IsContent pseudonym content
            × ((p : Post) × Elem p (view w).posts × (visible_by_id post_id p ≡ true))
            × (r ≡ record {
              id = r.id;
              post_id = post_id;
              author_id = author_id;
              pseudonym = pseudonym;
              content = trim_space content;
              created_at = r.created_at;
            }))
          (λ _ w'. view w' ≡ view w)
          (create_reply db sys post_id author_id pseudonym content w)
  unfolding create_reply
  create_reply-stored post_id author_id pseudonym content w =
      bind _ _ (λ _ w'. (w' ≡ w) × (bad_length 280 (trim_space content) ≡ false)) _ _ w
        (guarded _ _ _ invalid_input w (λ h. (refl, h)) (λ _. refl))
        λ _ w₁ h₁.
          bind _ _ (λ _ w'. (w' ≡ w₁) × (is_empty (trim_space pseudonym) ≡ false)) _ _ w₁
            (guarded _ _ _ invalid_input w₁ (λ h. (refl, h)) (λ _. ap view h₁.0))
            λ _ w₂ h₂.
              let same₂ = ap view h₂.0 ∙ ap view h₁.0 in
              bind _ _ _ _ _ w₂
                (since view _ w w₂ _ same₂ (
                  Ensures-mono _ _ _ _ _ (get_by_id-Gets db view d post_id w₂) (λ p w' h. h)
                    (λ e w' h. h.1)))
                λ p w₃ h₃.
                  bind _ _ (λ _ w'. view w' ≡ view w₃) _ _ w₃
                    (returned _ _ _ _ (s.new_uuid_reads w₃))
                    λ id w₄ h₄.
                      let same = h₄ ∙ h₃.2 ∙ same₂ in
                      since view _ w w₄ _ same (
                        Ensures-mono _ _ _ _ _ (create_reply_lem db sys view d s _ w₄)
                          (λ r w₅ h₅. (
                            h₅.1 ∙ ap (with_reply r) same,
                            accepted pseudonym content h₁.1 h₂.1,
                            (p, rw same₂ at h₃.0, h₃.1),
                            h₅.0,
                          ))
                          (λ e w₅ h₅. h₅))

module _ {W : Type 0} (db : Database W) (sys : System W) (view : W → Tables)
    (d : IsDatabase view db) (s : IsSystem view sys) (broadcaster : Option (Text → W → W))
    (marshal : Post → Result Text) (quiet : LeavesRows view broadcaster) where
  -- A post that is created is one more row, and no other row changes. It has the author and
  -- pseudonym of the call and the trimmed content, of 1 to 280 bytes; it is visible, with no reply
  -- and a score of 0. A creation that fails changes no row.
  pub create-stored :
      (author_id : Uuid) (pseudonym content : Text) (w : W)
      → Ensures
          (λ p w'.
            (view w' ≡ with_post p (view w))
            × IsContent pseudonym content
            × (p ≡ record {
              id = p.id;
              author_id = author_id;
              pseudonym = pseudonym;
              content = trim_space content;
              is_hidden = false;
              reply_count = 0;
              score = pos 0;
              created_at = p.created_at;
            }))
          (λ _ w'. view w' ≡ view w)
          (create broadcaster marshal db sys author_id pseudonym content w)
  unfolding create
  create-stored author_id pseudonym content w =
      bind _ _ (λ _ w'. (w' ≡ w) × (bad_length 280 (trim_space content) ≡ false)) _ _ w
        (guarded _ _ _ invalid_input w (λ h. (refl, h)) (λ _. refl))
        λ _ w₁ h₁.
          bind _ _ (λ _ w'. (w' ≡ w₁) × (is_empty (trim_space pseudonym) ≡ false)) _ _ w₁
            (guarded _ _ _ invalid_input w₁ (λ h. (refl, h)) (λ _. ap view h₁.0))
            λ _ w₂ h₂.
              bind _ _ (λ _ w'. view w' ≡ view w₂) _ _ w₂ (returned _ _ _ _ (s.new_uuid_reads w₂))
                λ id w₃ h₃.
                  let same = h₃ ∙ ap view h₂.0 ∙ ap view h₁.0 in
                  bind _ _ _ _ _ w₃ (since view _ w w₃ _ same (create_lem db sys view d s _ w₃))
                    λ p w₄ h₄.
                      bind _ _ (λ _ w'. view w' ≡ view w₄) _ _ w₄
                        (returned _ _ _ _ (announce_reads view broadcaster marshal p w₄ quiet))
                        λ _ w₅ h₅. returned _ _ _ _ (
                          h₅ ∙ h₄.1 ∙ ap (with_post p) same,
                          accepted pseudonym content h₁.1 h₂.1,
                          h₄.0,
                        )

  -- A post or a reply is refused with `invalid_input`, before anything is called, if its content is
  -- blank or has over 280 bytes after trimming, or its pseudonym is blank.
  pub create-refused :
      (post_id author_id : Uuid) (pseudonym content : Text) (w : W)
      → IsRefused pseudonym content
      → (create broadcaster marshal db sys author_id pseudonym content w
          ≡ (err (sentinel invalid_input), w))
        × (create_reply db sys post_id author_id pseudonym content w
            ≡ (err (sentinel invalid_input), w))
  unfolding create create_reply bad_length ◌>>=◌ reject_if
  create-refused post_id author_id pseudonym content w (inl blank) = (ground arith, ground arith)
  create-refused post_id author_id pseudonym content w (inr (inl long)) =
      (ground arith, ground arith)
  create-refused post_id author_id pseudonym content w (inr (inr blank)) =
      (ground arith, ground arith)
