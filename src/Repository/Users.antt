-- ===== src/Repository/Users.antt =====
-- internal/repository/user.go
pub mod Rows
use echo_backend.Base.{◌==◌}
use echo_backend.Text.{Text}
use echo_backend.Errors.{not_found}
use echo_backend.Effect.{M, reject_if, ◌>>=◌, map_error}
use echo_backend.Domain.{Uuid, Time, User}
use echo_backend.Database.{Database}
use echo_backend.Repository.Posts.{absent_as_not_found}
use echo_backend.Repository.Reports.{duplicate_as_conflict}

module _ {W : Type 0} (db : Database W) where
  unfoldable pub create : User → M W (Unit {0})
  unfolding duplicate_as_conflict
  create user = map_error duplicate_as_conflict (db.users.create user)

  unfoldable pub get_by_id : Uuid → M W User
  unfolding absent_as_not_found
  get_by_id id = map_error absent_as_not_found (db.users.first (λ u. u.id == id))

  unfoldable pub update_token : Uuid → Text → Time → M W (Unit {0})
  update_token id token_hash expires_at = do
    rows_affected ←
        db.users.update (λ u. u.id == id)
          (λ u. record u { token_hash = token_hash; expires_at = expires_at })
    reject_if (rows_affected == 0) not_found
