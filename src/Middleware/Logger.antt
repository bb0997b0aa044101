-- ===== src/Middleware/Logger.antt =====
-- internal/middleware/logger.go: the line that is logged for a request, after its handlers ran.
use echo_backend.Base.{ℕ, ◌-◌, Option, none, some, List, [], ◌∷◌, if◌then◌else◌}
use echo_backend.Text.{Text, codes, is_empty}
use echo_backend.System.{System}
use echo_backend.Middleware.Gin.{Context, Value, uuid_value, text_value, bool_value, get}

pub data Attr : Type 0 where
  string_attr : Text → Text → Attr
  int_attr duration_attr : Text → ℕ → Attr

-- `v.(string)` that is not empty.
unfoldable pub pseudonym_attrs : Option Value → List Attr
pseudonym_attrs none = []
pseudonym_attrs (some (text_value s)) =
    if is_empty s then [] else string_attr (codes "pseudonym") s ∷ []
pseudonym_attrs (some (uuid_value _)) = []
pseudonym_attrs (some (bool_value _)) = []

unfoldable pub log_attrs : Text → Text → Text → ℕ → ℕ → Context → List Attr
unfolding pseudonym_attrs
log_attrs method full_path path status latency c =
    string_attr (codes "method") method
    ∷ string_attr (codes "path") (if is_empty full_path then path else full_path)
    ∷ int_attr (codes "status") status
    ∷ duration_attr (codes "latency") latency
    ∷ pseudonym_attrs (get c (codes "pseudonym"))

-- What the rest of the chain leaves for the log: the status and the values of the request.
pub record Ran : Type 0 where
  pub status : ℕ
  pub values : Context

-- The whole handler: `info` writes a line, and the clock does not go back.
unfoldable pub handler :
    {W : Type 0} → System W → (List Attr → W → W) → Text → Text → Text → (W → Ran × W) → W → Ran × W
unfolding log_attrs
handler sys info method full_path path next w =
    let (started_at, w₁) = sys.now w in
    let (ran, w₂) = next w₁ in
    let (ended_at, w₃) = sys.now w₂ in
    (ran, info (log_attrs method full_path path ran.status (ended_at - started_at) ran.values) w₃)
