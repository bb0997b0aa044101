-- ===== src/Repository/Users/Rows.antt =====
-- What the queries of internal/repository/user.go do to the rows.
use echo_backend.Base.{◌≡◌, refl, [], ◌∷◌, ◌++◌, ◌==◌, arith, Elem, rewrite, rewrite_none}
use echo_backend.Text.{Text}
use echo_backend.Errors.{not_found}
use echo_backend.Effect.{Ensures}
use echo_backend.Effect.Rules.{bind, mapped, guarded, Ensures-mono}
use echo_backend.Domain.{Uuid, Time, User}
use echo_backend.Database.{Database, Tables, IsDatabase, Writes}
use echo_backend.Repository.Posts.{absent_as_not_found}
use echo_backend.Repository.Reports.{duplicate_as_conflict}
use echo_backend.Repository.Users.{create, get_by_id, update_token}

abbrev pub with_user : User → Tables → Tables
with_user u t = record t { users = t.users ++ u ∷ [] }

abbrev pub set_token : Text → Time → User → User
set_token hash at u = record u { token_hash = hash; expires_at = at }

abbrev pub with_token : Uuid → Text → Time → Tables → Tables
with_token id hash at t = record t { users = rewrite (λ u. u.id == id) (set_token hash at) t.users }

module _ {W : Type 0} (db : Database W) (view : W → Tables) (d : IsDatabase view db) where
  pub create_lem : (u : User) (w : W) → Writes view w (with_user u (view w)) (create db u w)
  unfolding create
  create_lem u w = mapped _ _ duplicate_as_conflict _ w (d.users_table.create_lem u w)

  pub get_by_id_lem :
      (id : Uuid) (w : W)
      → Ensures
          (λ u w'. Elem u (view w).users × (u.id ≡ id) × (view w' ≡ view w))
          (λ _ w'. view w' ≡ view w)
          (get_by_id db id w)
  unfolding get_by_id
  get_by_id_lem id w = mapped _ _ absent_as_not_found _ w (
      Ensures-mono _ _ _ _ _ (d.users_table.first_lem (λ u. u.id == id) w)
        (λ u w' h. (h.0, ground arith, h.2)) (λ e w' h. h.2))

  pub update_token_lem :
      (id : Uuid) (hash : Text) (at : Time) (w : W)
      → Writes view w (with_token id hash at (view w)) (update_token db id hash at w)
  unfolding update_token
  update_token_lem id hash at w =
      bind _ _ _ _ _ w (d.users_table.update_lem (λ u. u.id == id) (set_token hash at) w) λ k w₁ h.
        guarded _ _ _ not_found w₁ (λ _. h.1)
          (λ no_row.
            let nothing =
              rewrite_none (λ (u : User). u.id == id) (set_token hash at) (view w).users
                (ground arith) in
            rw (h.1, nothing) refl)
