-- ===== src/Service/Posts/Delete.antt =====
-- `Delete` of internal/service/post.go: only the author of a visible post deletes it.
use echo_backend.Base.{
  ◌<◌, ◌≡◌, ◌∙◌, refl, ap, true, false, not, ◌==◌, arith, Elem, count, Elem-count,
}
use echo_backend.Errors.{unauthorized}
use echo_backend.Effect.{Ensures}
use echo_backend.Effect.Rules.{bind, guarded, Ensures-mono}
use echo_backend.Domain.{Uuid, Post}
use echo_backend.Database.{Database, Tables, IsDatabase, without_posts}
use echo_backend.Database.Laws.{since}
use echo_backend.Repository.Posts.Rows.{
  visible_by_id, own_by_id, get_by_id-Gets, delete_by_author_lem,
}
use echo_backend.Service.Posts.{delete}

own_of_visible :
    (post_id author_id : Uuid) (p : Post)
    → visible_by_id post_id p ≡ true
    → not (p.author_id == author_id) ≡ false
    → own_by_id post_id author_id p ≡ true
own_of_visible post_id author_id p seen own = ground arith

module _ {W : Type 0} (db : Database W) (view : W → Tables) (d : IsDatabase view db) where
  -- The tables after the deletion.
  abbrev remaining : Uuid → Uuid → Tables → Tables
  remaining post_id author_id t = without_posts view (own_by_id post_id author_id) t

  own_row :
      (post_id author_id : Uuid) (p : Post) (t : Tables)
      → Elem p t.posts
      → own_by_id post_id author_id p ≡ true
      → 0 < count (own_by_id post_id author_id) t.posts
  own_row post_id author_id p t stored own =
      Elem-count (own_by_id post_id author_id) p t.posts stored own

  -- A deletion that succeeds was asked for by the author of a visible post with that identifier.
  -- It removes the author's posts with the identifier, with their replies, reactions and reports,
  -- and nothing else. A deletion that fails changes no row.
  pub delete-own :
      (post_id author_id : Uuid) (w : W)
      → Ensures
          (λ _ w'.
            ((p : Post) × Elem p (view w).posts
              × (p.id ≡ post_id)
              × (p.author_id ≡ author_id)
              × (p.is_hidden ≡ false))
            × (view w' ≡ without_posts view (own_by_id post_id author_id) (view w)))
          (λ _ w'. view w' ≡ view w)
          (delete db post_id author_id w)
  unfolding delete
  delete-own post_id author_id w =
      bind _ _ _ _ _ w
        (Ensures-mono _ _ _ _ _ (get_by_id-Gets db view d post_id w) (λ p w' h. h) (λ e w' h. h.1))
        λ p w₁ h.
          bind _ _ (λ _ w'. (w' ≡ w₁) × (own_by_id post_id author_id p ≡ true)) _ _ w₁
            (guarded _ _ _ unauthorized w₁
              (λ own. (refl, own_of_visible post_id author_id p h.1 own)) (λ _. h.2))
            λ _ w₂ g.
              let same = ap view g.0 ∙ h.2 in
              since view _ w w₂ _ same (
                Ensures-mono _ _ _ _ _
                  (delete_by_author_lem db view d post_id author_id w₂
                    (rw same (own_row post_id author_id p (view w) h.0 g.1)))
                  (λ _ w₃ k. (
                    (p, h.0, ground arith, ground arith, ground arith),
                    k ∙ ap (remaining post_id author_id) same,
                  ))
                  (λ e w₃ k. k))
