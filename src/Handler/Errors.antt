-- ===== src/Handler/Errors.antt =====
-- internal/handler/errors.go. A response keeps the value whose JSON is its body; a response to an
-- error keeps the status, the message and the code, or the texts for the fields of the request.
pub mod Laws
use echo_backend.Base.{ℕ, Bool, List, [], ◌∷◌, ◌++◌, if◌then◌else◌}
use echo_backend.Text.{Text, codes, text_eq}
use echo_backend.Errors.{
  Error, not_found, unauthorized, forbidden, conflict, invalid_input, is_error, Result, ok, err,
}
use echo_backend.Effect.{M}

pub data Response (A : Type 0) : Type 0 where
  success : ℕ → A → Response A
  domain_error : ℕ → Text → Text → Response A
  validation_error : List (Text × Text) → Response A

-- `validator.FieldError`
pub record FieldError : Type 0 where
  pub field : Text
  pub tag : Text
  pub param : Text

-- What `c.ShouldBindJSON` makes of the body: the request, or the validator's errors, none of them
-- for a body that is no JSON of the right shape.
pub data Binding (A : Type 0) : Type 0 where
  bound : A → Binding A
  unbound : List FieldError → Binding A

unfoldable pub map_domain_error : Error → ℕ × Text
map_domain_error e =
    if is_error e invalid_input
    then (400, codes "ERR_INVALID_INPUT")
    else if is_error e unauthorized
    then (401, codes "ERR_UNAUTHORIZED")
    else if is_error e forbidden
    then (403, codes "ERR_FORBIDDEN")
    else if is_error e not_found
    then (404, codes "ERR_NOT_FOUND")
    else if is_error e conflict
    then (409, codes "ERR_CONFLICT")
    else (500, codes "ERR_INTERNAL")

unfoldable pub message_by_code : Text → Text
unfolding text_eq
message_by_code code =
    if text_eq code (codes "ERR_INVALID_INPUT")
    then codes "invalid input"
    else if text_eq code (codes "ERR_UNAUTHORIZED")
    then codes "unauthorized"
    else if text_eq code (codes "ERR_FORBIDDEN")
    then codes "forbidden"
    else if text_eq code (codes "ERR_NOT_FOUND")
    then codes "not found"
    else if text_eq code (codes "ERR_CONFLICT")
    then codes "conflict"
    else codes "internal error"

unfoldable pub write_domain_error : {A : Type 0} → Error → Response A
unfolding map_domain_error message_by_code
write_domain_error e =
    let (status, code) = map_domain_error e in domain_error status (message_by_code code) code

unfoldable pub validation_message : Text → Text → Text
unfolding text_eq
validation_message tag param =
    if text_eq tag (codes "required")
    then codes "is required"
    else if text_eq tag (codes "max")
    then codes "must be at most " ++ param ++ codes " characters"
    else codes "is invalid"

-- `fields[key] = value`
unfoldable pub put_field : Text → Text → List (Text × Text) → List (Text × Text)
put_field key value [] = (key, value) ∷ []
put_field key value ((k, v) ∷ fields) =
    let rest = put_field key value fields in
    if text_eq k key then (key, value) ∷ fields else (k, v) ∷ rest

-- The loop over the validator's errors.
unfoldable pub field_texts : List FieldError → List (Text × Text) → List (Text × Text)
unfolding validation_message put_field
field_texts [] fields = fields
field_texts (e ∷ errors) fields =
    field_texts errors (put_field e.field (validation_message e.tag e.param) fields)

-- `if len(fields) == 0`
abbrev pub or_request : List (Text × Text) → List (Text × Text)
or_request [] = (codes "request", codes "invalid request payload") ∷ []
or_request (f ∷ fields) = f ∷ fields

unfoldable pub write_validation_error : {A : Type 0} → List FieldError → Response A
write_validation_error errors = validation_error (or_request (field_texts errors []))

module _ {W A B : Type 0} where
  -- `c.JSON(status, body)` for a result, and `writeDomainError` for an error.
  unfoldable pub respond : ℕ → (A → B) → M W A → W → Response B × W
  unfolding write_domain_error
  respond status body m w =
      let (r, w') = m w in
      elim r [ ok a ↦ (success status (body a), w') | err e ↦ (write_domain_error e, w') ]

  -- `if err := c.ShouldBindJSON(&req); err != nil`
  unfoldable pub with_request : Binding A → (A → W → Response B × W) → W → Response B × W
  unfolding write_validation_error
  with_request (bound req) handle w = handle req w
  with_request (unbound errors) handle w = (write_validation_error errors, w)
