-- ===== src/Service/Posts/Votes.antt =====
-- `React` of internal/service/post.go: scores and reactions.
use echo_backend.Base.{
  ℕ, ◌≤◌, ◌<◌, ◌≡◌, ◌∙◌, refl, ap, true, false, not, ◌&&◌, inl, inr, ◌⊎◌, arith, Elem, count,
  Elem-count, ltb,
}
use echo_backend.Base.Int.{pos, negsuc, ◌+ℤ◌, int_laws}
use echo_backend.Errors.{invalid_input}
use echo_backend.Effect.{Ensures}
use echo_backend.Effect.Rules.{bind, guarded, Ensures-mono}
use echo_backend.Domain.{Uuid, Post, ReactionKind, upvote, downvote, other_kind, kind_eq}
use echo_backend.Database.{Database, Tables, IsDatabase}
use echo_backend.Database.Laws.{since}
use echo_backend.Repository.Posts.{reaction_value, by_user}
use echo_backend.Repository.Posts.Rows.{visible_by_id, get_by_id-Gets}
use echo_backend.Repository.Posts.Upsert.{
  Upserted, first_reaction, change, same_again, new_reaction, upsert_reaction_lem,
}
use echo_backend.Service.Posts.{react}
use echo_backend.Service.Posts.Tally.{
  tally, tally-append, tally-change, IsTallied, scored-IsTallied,
}

abbrev pub IsVote : ReactionKind → Type 0
IsVote kind = (kind ≡ upvote) ⊎ (kind ≡ downvote)

IsVote-of_guard :
    (kind : ReactionKind)
    → (not (kind_eq kind upvote) && not (kind_eq kind downvote)) ≡ false
    → IsVote kind
unfolding kind_eq
IsVote-of_guard upvote h = inl refl
IsVote-of_guard downvote h = inr refl
IsVote-of_guard (other_kind t) h = cc

module _ {W : Type 0} (db : Database W) (view : W → Tables) (d : IsDatabase view db) (n : ℕ)
    (handle : (w : W) → db.handle_rows_affected w ≡ n) (post_id user_id : Uuid)
    (kind : ReactionKind) where
  -- A reaction that succeeds is an upvote or a downvote of a visible post, and it is upserted. One
  -- that fails changes no row.
  react-Upserted :
      (w : W)
      → Ensures
          (λ _ w'.
            IsVote kind
            × ((p : Post) × Elem p (view w).posts × (visible_by_id post_id p ≡ true))
            × Upserted n post_id user_id kind (view w) (view w'))
          (λ _ w'. view w' ≡ view w)
          (react db post_id user_id kind w)
  unfolding react
  react-Upserted w =
      bind _ _ (λ _ w'. (w' ≡ w) × IsVote kind) _ _ w
        (guarded _ _ _ invalid_input w (λ h. (refl, IsVote-of_guard kind h)) (λ _. refl))
        λ _ w₁ h₁.
          let same₁ = ap view h₁.0 in
          bind _ _ _ _ _ w₁
            (since view _ w w₁ _ same₁ (
              Ensures-mono _ _ _ _ _ (get_by_id-Gets db view d post_id w₁) (λ p w' h. h)
                (λ e w' h. h.1)))
            λ p w₂ h₂.
              let same = h₂.2 ∙ same₁ in
              since view _ w w₂ _ same (
                Ensures-mono _ _ _ _ _
                  (upsert_reaction_lem db view d n handle post_id user_id kind w₂)
                  (λ _ w₃ h₃. (h₁.1, (p, rw same₁ at h₂.0, h₂.1), rw same at h₃)) (λ e w₃ h₃. h₃))

-- The tables after an upsert, where the user had reacted before or the handle tells of the insert.
Upserted-IsTallied :
    (n : ℕ) (post_id user_id : Uuid) (kind : ReactionKind) (t t' : Tables)
    → (0 < n) ⊎ (0 < count (by_user post_id user_id) t.reactions)
    → count (by_user post_id user_id) t.reactions ≤ 1
    → IsTallied t
    → Upserted n post_id user_id kind t t'
    → IsTallied t'
Upserted-IsTallied n post_id user_id kind t t' known single h (first_reaction at absent e) =
    let counted : ltb 0 n ≡ true = ground arith in
    rw (e, counted)
      (scored-IsTallied post_id (reaction_value kind) _ t
        (λ k. tally-append k t.reactions (new_reaction post_id user_id kind at)) h)
Upserted-IsTallied n post_id user_id kind t t' known single h (change old stored own _ e) = rw e (
    scored-IsTallied post_id _ _ t
      (λ k. tally-change k post_id user_id kind old t.reactions single stored own) h)
Upserted-IsTallied n post_id user_id kind t t' known single h (same_again _ _ _ _ e) = rw e h

-- After a first reaction that the handle does not tell of.
Upserted-unscored :
    (post_id user_id : Uuid) (kind : ReactionKind) (t t' : Tables)
    → count (by_user post_id user_id) t.reactions ≡ 0
    → Upserted 0 post_id user_id kind t t'
    → (t'.posts ≡ t.posts)
      × (tally post_id t'.reactions ≡ tally post_id t.reactions +ℤ reaction_value kind)
Upserted-unscored post_id user_id kind t t' absent (first_reaction at _ e) =
    (rw e, rw e (tally-append post_id t.reactions _ ∙ grind int_laws))
Upserted-unscored post_id user_id kind t t' absent (change old stored own _ _) =
    absurd (omega (arith, Elem-count (by_user post_id user_id) old t.reactions stored own))
Upserted-unscored post_id user_id kind t t' absent (same_again old stored own _ _) =
    absurd (omega (arith, Elem-count (by_user post_id user_id) old t.reactions stored own))

module _ {W : Type 0} (db : Database W) (view : W → Tables) (d : IsDatabase view db) where
  -- Where every score is the sum of the reactions to its post, it stays so through a reaction, if
  -- the user had reacted to the post before, or the transaction's handle tells of the rows that a
  -- statement inserts. The user has one reaction to the post at most.
  pub react-IsTallied :
      (n : ℕ) (post_id user_id : Uuid) (kind : ReactionKind) (w : W)
      → ((w : W) → db.handle_rows_affected w ≡ n)
      → (0 < n) ⊎ (0 < count (by_user post_id user_id) (view w).reactions)
      → count (by_user post_id user_id) (view w).reactions ≤ 1
      → IsTallied (view w)
      → Ensures
          (λ _ w'. IsTallied (view w'))
          (λ _ w'. IsTallied (view w'))
          (react db post_id user_id kind w)
  react-IsTallied n post_id user_id kind w handle known single h =
      Ensures-mono _ _ _ _ _ (react-Upserted db view d n handle post_id user_id kind w)
        (λ _ w' r. Upserted-IsTallied n post_id user_id kind _ _ known single h r.2)
        (λ e w' same. rw same h)

  -- gorm leaves `RowsAffected` of the transaction's own handle at 0. Then a user's first reaction
  -- to a post is stored, and the sum of the reactions moves by 1, but every score stays as it was.
  pub react-unscored :
      (post_id user_id : Uuid) (kind : ReactionKind) (w : W)
      → ((w : W) → db.handle_rows_affected w ≡ 0)
      → count (by_user post_id user_id) (view w).reactions ≡ 0
      → Ensures
          (λ _ w'.
            ((view w').posts ≡ (view w).posts)
            × (tally post_id (view w').reactions
                ≡ tally post_id (view w).reactions +ℤ reaction_value kind)
            × ((reaction_value kind ≡ pos 1) ⊎ (reaction_value kind ≡ negsuc 0)))
          (λ _ w'. view w' ≡ view w)
          (react db post_id user_id kind w)
  unfolding reaction_value
  react-unscored post_id user_id kind w handle absent =
      Ensures-mono _ _ _ _ _ (react-Upserted db view d 0 handle post_id user_id kind w)
        (λ _ w' r.
          let moved = Upserted-unscored post_id user_id kind _ _ absent r.2 in
          (moved.0, moved.1, ground arith))
        (λ e w' same. same)
