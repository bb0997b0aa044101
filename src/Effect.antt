-- ===== src/Effect.antt =====
-- A call of the Go code: it changes the world (database, Redis, clock) and returns a value or an
-- error. What was written before an error stays written.
pub mod Rules
use echo_backend.Base.{Bool, if◌then◌else◌}
use echo_backend.Text.{Text}
use echo_backend.Errors.{Sentinel, Error, sentinel, wrapped, Result, ok, err}

abbrev pub M : Type 0 → Type 0 → Type 0
M W A = W → Result A × W

module _ {W : Type 0} where
  abbrev pub pure : {A : Type 0} → A → M W A
  pure a w = (ok a, w)

  abbrev pub fail : {A : Type 0} → Error → M W A
  fail e w = (err e, w)

  -- `return domain.ErrX`
  abbrev pub reject : {A : Type 0} → Sentinel → M W A
  reject s w = (err (sentinel s), w)

  infixl 5 ◌>>=◌ ◌>>◌
  unfoldable pub ◌>>=◌ : {A B : Type 0} → M W A → (A → M W B) → M W B
  ◌>>=◌ m f w = let (r, w') = m w in elim r [ ok a ↦ f a w' | err e ↦ (err e, w') ]

  abbrev pub ◌>>◌ : {B : Type 0} → M W (Unit {0}) → M W B → M W B
  m >> k = m >>= λ _. k

  -- `if failed { return domain.ErrX }`
  unfoldable pub reject_if : Bool → Sentinel → M W (Unit {0})
  reject_if b s w = (if b then err (sentinel s) else ok tt, w)

  -- The error as a value, for code that looks at it.
  unfoldable pub attempt : {A : Type 0} → M W A → M W (Result A)
  attempt m w = let (r, w') = m w in (ok r, w')

  -- A call that cannot fail, such as `time.Now()`.
  abbrev pub total : {A : Type 0} → (W → A × W) → M W A
  total f w = let (a, w') = f w in (ok a, w')

  -- `fmt.Errorf("text: %w", err)` on the error of a call.
  unfoldable pub context : {A : Type 0} → Text → M W A → M W A
  context t m w =
      let (r, w') = m w in elim r [ ok a ↦ (ok a, w') | err e ↦ (err (wrapped t e), w') ]

  -- The error of a call, changed.
  unfoldable pub map_error : {A : Type 0} → (Error → Error) → M W A → M W A
  map_error g m w = let (r, w') = m w in elim r [ ok a ↦ (ok a, w') | err e ↦ (err (g e), w') ]

  -- A result that is at hand.
  abbrev pub from_result : {A : Type 0} → Result A → M W A
  from_result r w = (r, w)

  -- What a call promises of the world that it leaves: `Q` if it returns, `E` if it fails.
  unfoldable pub Ensures :
      {A : Type 0} → (A → W → Type 0) → (Error → W → Type 0) → Result A × W → Type 0
  Ensures Q E (ok a, w) = Q a w
  Ensures Q E (err e, w) = E e w
