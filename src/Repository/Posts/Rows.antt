-- ===== src/Repository/Posts/Rows.antt =====
-- What the queries of internal/repository/post.go on single posts do to the rows.
use echo_backend.Base.{
  ◌<◌, ◌≡◌, refl, Bool, true, false, not, inl, inr, ◌&&◌, ◌==◌, arith, Elem, count, rewrite,
  rewrite_none, Bool-cases,
}
use echo_backend.Errors.{Error, Result, not_found, record_not_found, is_error}
use echo_backend.Effect.{Ensures}
use echo_backend.Effect.Rules.{bind, mapped, guarded, Ensures-mono}
use echo_backend.Domain.{Uuid, Post}
use echo_backend.Database.{Database, Tables, IsDatabase, without_posts}
use echo_backend.Repository.Posts.{absent_as_not_found, get_by_id, set_hidden, delete_by_author}

abbrev pub visible_by_id : Uuid → Post → Bool
visible_by_id post_id p = p.id == post_id && not p.is_hidden

abbrev pub own_by_id : Uuid → Uuid → Post → Bool
own_by_id post_id author_id p = p.id == post_id && p.author_id == author_id

pub absent_as_not_found-not_found :
    (e : Error)
    → is_error e not_found ≡ false
    → is_error (absent_as_not_found e) not_found ≡ true
    → is_error e record_not_found ≡ true
unfolding absent_as_not_found is_error
absent_as_not_found-not_found e foreign h = elim (Bool-cases (is_error e record_not_found)) [
  | inl absent ↦ absent
  | inr other ↦ ground arith
]

module _ {W : Type 0} (db : Database W) (view : W → Tables) (d : IsDatabase view db) where
  -- A visible post with the identifier, or an error; `not_found` is told only if there is none.
  abbrev pub Gets : Uuid → W → Result Post × W → Type 0
  Gets post_id w =
      Ensures
        (λ p w'. Elem p (view w).posts × (visible_by_id post_id p ≡ true) × (view w' ≡ view w))
        (λ e w'.
          (is_error e not_found ≡ true → count (visible_by_id post_id) (view w).posts ≡ 0)
          × (view w' ≡ view w))

  pub get_by_id-Gets : (post_id : Uuid) (w : W) → Gets post_id w (get_by_id db post_id w)
  unfolding get_by_id
  get_by_id-Gets post_id w = mapped _ _ absent_as_not_found _ w (
      Ensures-mono _ _ _ _ _ (d.posts_table.first_lem (visible_by_id post_id) w) (λ p w' h. h)
        (λ e w' h. (λ q. h.0 (absent_as_not_found-not_found e h.1 q), h.2)))

  -- The posts with the identifier are hidden or shown, and there is one at least.
  pub set_hidden_lem :
      (post_id : Uuid) (hidden : Bool) (w : W)
      → Ensures
          (λ _ w'.
            (0 < count (λ (p : Post). p.id == post_id) (view w).posts)
            × (view w' ≡ record (view w) {
              posts =
                  rewrite
                    (λ p. p.id == post_id)
                    (λ p. record p { is_hidden = hidden })
                    (view w).posts;
            }))
          (λ _ w'. view w' ≡ view w)
          (set_hidden db post_id hidden w)
  unfolding set_hidden
  set_hidden_lem post_id hidden w = bind _ _ _ _ _ w (d.posts_table.update_lem _ _ w) λ k w' h.
      guarded _ _ _ _ w' (λ some_row. (ground arith, h.1))
        (λ no_row.
          let nothing =
            rewrite_none (λ (p : Post). p.id == post_id)
              (λ (p : Post). record p { is_hidden = hidden }) (view w).posts (ground arith) in
          rw (h.1, nothing) refl)

  pub delete_by_author_lem :
      (post_id author_id : Uuid) (w : W)
      → 0 < count (own_by_id post_id author_id) (view w).posts
      → Ensures
          (λ _ w'. view w' ≡ without_posts view (own_by_id post_id author_id) (view w))
          (λ _ w'. view w' ≡ view w)
          (delete_by_author db post_id author_id w)
  unfolding delete_by_author
  delete_by_author_lem post_id author_id w own =
      bind _ _ _ _ _ w (d.delete_posts_lem _ w)
        λ k w' h. guarded _ _ _ _ w' (λ some_row. h.1) (λ no_row. absurd (ground arith))
