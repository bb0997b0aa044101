-- ===== src/Effect/Rules.antt =====
-- One rule for each way to build a call: what it ensures follows from what its parts ensure.
use echo_backend.Base.{◌≡◌, refl, Bool, true, false, if◌then◌else◌}
use echo_backend.Text.{Text}
use echo_backend.Errors.{Sentinel, Error, sentinel, wrapped, Result, ok, err}
use echo_backend.Effect.{M, ◌>>=◌, reject_if, attempt, context, map_error, from_result, Ensures}

module _ {W : Type 0} where
  pub Ensures-mono :
      {A : Type 0} (Q' : A → W → Type 0) (E' : Error → W → Type 0) (Q : A → W → Type 0)
      (E : Error → W → Type 0) (x : Result A × W)
      → Ensures Q E x
      → ((a : A) (w : W) → Q a w → Q' a w)
      → ((e : Error) (w : W) → E e w → E' e w)
      → Ensures Q' E' x
  unfolding Ensures
  Ensures-mono Q' E' Q E (ok a, w) h q e = q a w h
  Ensures-mono Q' E' Q E (err x, w) h q e = e x w h

  pub bind :
      {A B : Type 0} (Q' : B → W → Type 0) (E : Error → W → Type 0) (Q : A → W → Type 0) (m : M W A)
      (f : A → M W B) (w : W)
      → Ensures Q E (m w)
      → ((a : A) (w' : W) → Q a w' → Ensures Q' E (f a w'))
      → Ensures Q' E ((m >>= f) w)
  unfolding Ensures ◌>>=◌
  bind {A} {B} Q' E Q m f w h k = go (m w) h
    where
      go :
          (x : Result A × W)
          → Ensures Q E x
          → Ensures Q' E (let (r, w') = x in elim r [ ok a ↦ f a w' | err e ↦ (err e, w') ])
      go (ok a, w') q = k a w' q
      go (err e, w') q = q

  pub guarded :
      (Q : Unit {0} → W → Type 0) (E : Error → W → Type 0) (b : Bool) (s : Sentinel) (w : W)
      → (b ≡ false → Q tt w)
      → (b ≡ true → E (sentinel s) w)
      → Ensures Q E (reject_if b s w)
  unfolding Ensures reject_if
  guarded Q E true s w q e = e refl
  guarded Q E false s w q e = q refl

  pub attempted :
      {A : Type 0} (Q : Result A → W → Type 0) (E : Error → W → Type 0) (m : M W A) (w : W)
      → Ensures (λ a w'. Q (ok a) w') (λ e w'. Q (err e) w') (m w)
      → Ensures Q E (attempt m w)
  unfolding Ensures attempt
  attempted {A} Q E m w h = go (m w) h
    where
      go : (x : Result A × W) → Ensures (λ a w'. Q (ok a) w') (λ e w'. Q (err e) w') x → Q x.0 x.1
      go (ok a, w') q = q
      go (err e, w') q = q

  pub mapped :
      {A : Type 0} (Q : A → W → Type 0) (E : Error → W → Type 0) (g : Error → Error) (m : M W A)
      (w : W)
      → Ensures Q (λ e w'. E (g e) w') (m w)
      → Ensures Q E (map_error g m w)
  unfolding Ensures map_error
  mapped {A} Q E g m w h = go (m w) h
    where
      go :
          (x : Result A × W)
          → Ensures Q (λ e w'. E (g e) w') x
          → Ensures Q E (let (r, w') = x in elim r [ ok a ↦ (ok a, w') | err e ↦ (err (g e), w') ])
      go (ok a, w') q = q
      go (err e, w') q = q

  pub in_context :
      {A : Type 0} (Q : A → W → Type 0) (E : Error → W → Type 0) (t : Text) (m : M W A) (w : W)
      → Ensures Q (λ e w'. E (wrapped t e) w') (m w)
      → Ensures Q E (context t m w)
  unfolding Ensures context
  in_context {A} Q E t m w h = go (m w) h
    where
      go :
          (x : Result A × W)
          → Ensures Q (λ e w'. E (wrapped t e) w') x
          → Ensures Q E
              (let (r, w') = x in elim r [ ok a ↦ (ok a, w') | err e ↦ (err (wrapped t e), w') ])
      go (ok a, w') q = q
      go (err e, w') q = q

  pub returned :
      {A : Type 0} (Q : A → W → Type 0) (E : Error → W → Type 0) (a : A) (w : W)
      → Q a w
      → Ensures Q E (ok a, w)
  unfolding Ensures
  returned Q E a w q = q

  pub failed :
      {A : Type 0} (Q : A → W → Type 0) (E : Error → W → Type 0) (e : Error) (w : W)
      → E e w
      → Ensures Q E (err e, w)
  unfolding Ensures
  failed Q E e w q = q

  -- The rule for an `if` between two calls.
  pub branch :
      {A : Type 0} (Q : A → W → Type 0) (E : Error → W → Type 0) (b : Bool) (m n : M W A) (w : W)
      → (b ≡ true → Ensures Q E (m w))
      → (b ≡ false → Ensures Q E (n w))
      → Ensures Q E ((if b then m else n) w)
  branch Q E true m n w yes_case no_case = yes_case refl
  branch Q E false m n w yes_case no_case = no_case refl

  -- An error is the one that the call returned.
  pub recorded :
      {A : Type 0} (Q : A → W → Type 0) (E : Error → W → Type 0) (x : Result A × W)
      → Ensures Q E x
      → Ensures Q (λ e w'. E e w' × (x.0 ≡ err e)) x
  unfolding Ensures
  recorded Q E (ok a, w) h = h
  recorded Q E (err e, w) h = (h, refl)

  -- What a call ensures, with what it is.
  pub told :
      {A : Type 0} (Q : A → W → Type 0) (E : Error → W → Type 0) (x : Result A × W)
      → Ensures Q E x
      → Ensures (λ a w. Q a w × (x.0 ≡ ok a)) (λ e w. E e w × (x.0 ≡ err e)) x
  unfolding Ensures
  told Q E (ok a, w) h = (h, refl)
  told Q E (err e, w) h = (h, refl)

  -- What holds of the world that a call leaves, whether it returns or fails.
  pub ended :
      {A : Type 0} (P : W → Type 0) (Q : A → W → Type 0) (E : Error → W → Type 0) (x : Result A × W)
      → P x.1
      → Ensures Q E x
      → Ensures (λ a w. Q a w × P w) (λ e w. E e w × P w) x
  unfolding Ensures
  ended P Q E (ok a, w) p q = (q, p)
  ended P Q E (err e, w) p q = (q, p)

  -- What holds of the world that a call leaves, and nothing of its result.
  pub leaves :
      {A : Type 0} (P : W → Type 0) (x : Result A × W) → P x.1 → Ensures (λ _ w. P w) (λ _ w. P w) x
  unfolding Ensures
  leaves P (ok a, w) p = p
  leaves P (err e, w) p = p

  pub left_with :
      {A : Type 0} (P : W → Type 0) (x : Result A × W) → Ensures (λ _ w. P w) (λ _ w. P w) x → P x.1
  unfolding Ensures
  left_with P (ok a, w) p = p
  left_with P (err e, w) p = p

  -- A call whose result is known.
  pub exact :
      {A : Type 0} (E : Error → W → Type 0) (a : A) (x : Result A × W)
      → x.0 ≡ ok a
      → Ensures (λ b w'. (b ≡ a) × (w' ≡ x.1)) E x
  unfolding Ensures
  exact E a (ok b, w) e = (cc, refl)
  exact E a (err x, w) e = cc

-- A result that is at hand, with its equation.
pub from_result_lem :
    {W A V : Type 0} (view : W → V) (r : Result A) (w : W)
    → Ensures (λ x w'. (r ≡ ok x) × (view w' ≡ view w)) (λ _ w'. view w' ≡ view w) (from_result r w)
from_result_lem view (ok x) w = returned _ _ _ _ (refl, refl)
from_result_lem view (err e) w = failed _ _ _ _ refl

-- The same, with the world as it was.
pub from_result_same :
    {W A V : Type 0} (view : W → V) (r : Result A) (w : W)
    → Ensures (λ x w'. (r ≡ ok x) × (w' ≡ w)) (λ _ w'. view w' ≡ view w) (from_result r w)
from_result_same view (ok x) w = returned _ _ _ _ (refl, refl)
from_result_same view (err e) w = failed _ _ _ _ refl
