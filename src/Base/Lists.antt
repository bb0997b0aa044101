-- ===== src/Base/Lists.antt =====
-- Lists measured by native numbers, and searched by Boolean tests.
use Prim.Native.Nat.{ℕ, zero, suc, ◌+◌, ◌≤◌, ◌<◌}
use mathlib.Core.Path.{◌≡◌, refl}
use mathlib.Core.Logic.{◌⊎◌, inl, inr}
use mathlib.Core.Bool.{Bool, true, false}
use mathlib.Core.List.{List, [], ◌∷◌, ◌++◌}
use native.Mathlib.Omega.{arith}
use echo_backend.Base.Tests.{Bool-cases, if◌then◌else◌}

module _ {A : Type 0} where
  abbrev pub length : List A → ℕ
  length [] = 0
  length (x ∷ xs) = suc (length xs)

  abbrev pub take : ℕ → List A → List A
  take zero xs = []
  take (suc n) [] = []
  take (suc n) (x ∷ xs) = x ∷ take n xs

  -- The rows that pass a test.
  abbrev pub select : (A → Bool) → List A → List A
  select p [] = []
  select p (x ∷ xs) = let rest = select p xs in if p x then x ∷ rest else rest

  -- How many rows pass a test.
  abbrev pub count : (A → Bool) → List A → ℕ
  count p [] = 0
  count p (x ∷ xs) = let rest = count p xs in if p x then suc rest else rest

  -- Each row that passes a test is changed, the others stay.
  abbrev pub rewrite : (A → Bool) → (A → A) → List A → List A
  rewrite p f [] = []
  rewrite p f (x ∷ xs) = (if p x then f x else x) ∷ rewrite p f xs

  abbrev pub Elem : A → List A → Type 0
  Elem a [] = ⊥
  Elem a (x ∷ xs) = (a ≡ x) ⊎ Elem a xs

  abbrev pub All : (A → Type 0) → List A → Type 0
  All P [] = Unit
  All P (x ∷ xs) = P x × All P xs

  pub count-append : (p : A → Bool) (xs ys : List A) → count p (xs ++ ys) ≡ count p xs + count p ys
  count-append p [] ys = omega arith
  count-append p (x ∷ xs) ys = ground (arith, count-append p xs ys)

  pub All-append : (P : A → Type 0) (xs ys : List A) → All P xs → All P ys → All P (xs ++ ys)
  All-append P [] ys hx hy = hy
  All-append P (x ∷ xs) ys hx hy = (hx.0, All-append P xs ys hx.1 hy)

  pub Elem-All : (P : A → Type 0) (a : A) (xs : List A) → All P xs → Elem a xs → P a
  Elem-All P a [] h m = absurd m
  Elem-All P a (x ∷ xs) h (inl e) = rw e h.0
  Elem-All P a (x ∷ xs) h (inr m) = Elem-All P a xs h.1 m

  pub length-take : (n : ℕ) (xs : List A) → length (take n xs) ≤ n
  length-take zero xs = omega arith
  length-take (suc n) [] = omega arith
  length-take (suc n) (x ∷ xs) = omega (arith, length-take n xs)

  pub Elem-take : (a : A) (n : ℕ) (xs : List A) → Elem a (take n xs) → Elem a xs
  Elem-take a zero xs m = absurd m
  Elem-take a (suc n) [] m = absurd m
  Elem-take a (suc n) (x ∷ xs) (inl e) = inl e
  Elem-take a (suc n) (x ∷ xs) (inr m) = inr (Elem-take a n xs m)

  pub All-mono : (P Q : A → Type 0) (xs : List A) → All P xs → ((x : A) → P x → Q x) → All Q xs
  All-mono P Q [] h k = tt
  All-mono P Q (x ∷ xs) h k = (k x h.0, All-mono P Q xs h.1 k)

module _ {A : Type 0} (p : A → Bool) where
  pub Elem-count : (a : A) (xs : List A) → Elem a xs → p a ≡ true → 0 < count p xs
  Elem-count a [] m h = absurd m
  Elem-count a (x ∷ xs) (inl e) h = rw (← e, h) (omega arith)
  Elem-count a (x ∷ xs) (inr m) h = ground (arith, Elem-count a xs m h)

  pub rewrite_none : (f : A → A) (xs : List A) → count p xs ≡ 0 → rewrite p f xs ≡ xs
  rewrite_none f [] h = refl
  rewrite_none f (x ∷ xs) h = ground (arith, rewrite_none f xs)

  -- What holds of the rows after a change, from what held of them before.
  pub All-rewrite :
      (P Q : A → Type 0) (f : A → A) (xs : List A)
      → All P xs
      → ((x : A) → P x → p x ≡ true → Q (f x))
      → ((x : A) → P x → p x ≡ false → Q x)
      → All Q (rewrite p f xs)
  All-rewrite P Q f [] h yes_case no_case = tt
  All-rewrite P Q f (x ∷ xs) h yes_case no_case =
      (head_case, All-rewrite P Q f xs h.1 yes_case no_case)
    where
      head_case : Q (if p x then f x else x)
      head_case = elim (Bool-cases (p x)) [
        | inl e ↦ rw e (yes_case x h.0 e)
        | inr e ↦ rw e (no_case x h.0 e)
      ]
