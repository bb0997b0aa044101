-- ===== src/Middleware/Admin.antt =====
-- internal/middleware/admin.go
use echo_backend.Base.{true, false, none, some}
use echo_backend.Text.{codes}
use echo_backend.Middleware.Gin.{
  Context, Verdict, next, abort, get, uuid_value, text_value, bool_value,
}

abbrev pub forbidden_verdict : Verdict
forbidden_verdict = abort 403 (codes "forbidden") (codes "ERR_FORBIDDEN")

unfoldable pub admin_handler : Context → Verdict
admin_handler c = elim (get c (codes "isAdmin")) [
  | none ↦ forbidden_verdict
  | some v ↦ elim v [
    | bool_value true ↦ next c
    | bool_value false ↦ forbidden_verdict
    | uuid_value _ ↦ forbidden_verdict
    | text_value _ ↦ forbidden_verdict
  ]
]
