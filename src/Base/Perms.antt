-- ===== src/Base/Perms.antt =====
-- Rows in some order: permutations, lists in the order of a Boolean test, and pages of them.
use Prim.Native.Nat.{ℕ, zero, suc, ◌+◌, ◌≤◌}
use mathlib.Core.Path.{◌≡◌, refl, ap, ◌∙◌}
use mathlib.Core.Logic.{inl, inr}
use mathlib.Core.Bool.{Bool, true, false}
use mathlib.Core.List.Permᴰ
use mathlib.Core.List.{List, [], ◌∷◌, ◌++◌, Permᴰ}
use native.Mathlib.Omega.{arith}
use echo_backend.Base.Tests.{Bool-cases}
use echo_backend.Base.Lists.{All, Elem, select, take, length, count}

module _ {A : Type 0} where
  abbrev pub drop : ℕ → List A → List A
  drop zero xs = xs
  drop (suc n) [] = []
  drop (suc n) (x ∷ xs) = drop n xs

  pub take-append-drop : (n : ℕ) (xs : List A) → take n xs ++ drop n xs ≡ xs
  take-append-drop zero xs = refl
  take-append-drop (suc n) [] = refl
  take-append-drop (suc n) (x ∷ xs) = ap (◌∷◌ x) (take-append-drop n xs)

  pub All-perm : (P : A → Type 0) {xs ys : List A} → Permᴰ xs ys → All P xs → All P ys
  All-perm P Permᴰ.nil h = tt
  All-perm P (Permᴰ.cons e p) h = (rw (← e) h.0, All-perm P p h.1)
  All-perm P (Permᴰ.swap e f) h = (rw (← f) h.1.0, (rw (← e) h.0, h.1.1))
  All-perm P (Permᴰ.trans p q) h = All-perm P q (All-perm P p h)

  pub Elem-perm : (a : A) {xs ys : List A} → Permᴰ xs ys → Elem a xs → Elem a ys
  Elem-perm a Permᴰ.nil m = m
  Elem-perm a (Permᴰ.cons e p) (inl f) = inl (f ∙ e)
  Elem-perm a (Permᴰ.cons e p) (inr m) = inr (Elem-perm a p m)
  Elem-perm a (Permᴰ.swap e f) (inl g) = inr (inl (g ∙ e))
  Elem-perm a (Permᴰ.swap e f) (inr (inl g)) = inl (g ∙ f)
  Elem-perm a (Permᴰ.swap e f) (inr (inr m)) = inr (inr m)
  Elem-perm a (Permᴰ.trans p q) m = Elem-perm a q (Elem-perm a p m)

  pub count-perm : (p : A → Bool) {xs ys : List A} → Permᴰ xs ys → count p xs ≡ count p ys
  count-perm p Permᴰ.nil = refl
  count-perm p (Permᴰ.cons e h) = rw e (ground (arith, count-perm p h))
  count-perm p (Permᴰ.swap e f) = rw (e, f) (ground arith)
  count-perm p (Permᴰ.trans h k) = count-perm p h ∙ count-perm p k

  pub length-perm : {xs ys : List A} → Permᴰ xs ys → length xs ≡ length ys
  length-perm Permᴰ.nil = refl
  length-perm (Permᴰ.cons e p) = ap suc (length-perm p)
  length-perm (Permᴰ.swap e f) = refl
  length-perm (Permᴰ.trans p q) = length-perm p ∙ length-perm q

  pub count-select : (p q : A → Bool) (xs : List A) → count p (select q xs) ≤ count p xs
  count-select p q [] = omega arith
  count-select p q (x ∷ xs) = ground (arith, count-select p q xs)

  pub length-append : (xs ys : List A) → length (xs ++ ys) ≡ length xs + length ys
  length-append [] ys = omega arith
  length-append (x ∷ xs) ys = omega (arith, length-append xs ys)

  pub All-take : (P : A → Type 0) (n : ℕ) (xs : List A) → All P xs → All P (take n xs)
  All-take P zero xs h = tt
  All-take P (suc n) [] h = tt
  All-take P (suc n) (x ∷ xs) h = (h.0, All-take P n xs h.1)

  -- What a test that passes says of a row, for all the rows that pass.
  pub All-select_of :
      (P Q : A → Type 0) (p : A → Bool) (xs : List A)
      → All P xs
      → ((x : A) → P x → p x ≡ true → Q x)
      → All Q (select p xs)
  All-select_of P Q p [] h k = tt
  All-select_of P Q p (x ∷ xs) h k = elim (Bool-cases (p x)) [
    | inl e ↦ rw e (k x h.0 e, All-select_of P Q p xs h.1 k)
    | inr e ↦ rw e (All-select_of P Q p xs h.1 k)
  ]

  pub select-perm :
      (p : A → Bool) {xs ys : List A} → Permᴰ xs ys → Permᴰ (select p xs) (select p ys)
  select-perm p Permᴰ.nil = Permᴰ.nil
  select-perm p (Permᴰ.cons {a} {b} e h) = elim (Bool-cases (p b)) [
    | inl t ↦ rw (e, t) (Permᴰ.cons refl (select-perm p h))
    | inr t ↦ rw (e, t) (select-perm p h)
  ]
  select-perm p (Permᴰ.swap {a} {b} {a'} {b'} {l} e f) = elim (Bool-cases (p a')) [
    | inl t ↦ elim (Bool-cases (p b')) [
      | inl u ↦ rw (e, f, t, u) (Permᴰ.swap refl refl)
      | inr u ↦ rw (e, f, t, u) (Permᴰ.refl (a' ∷ select p l))
    ]
    | inr t ↦ elim (Bool-cases (p b')) [
      | inl u ↦ rw (e, f, t, u) (Permᴰ.refl (b' ∷ select p l))
      | inr u ↦ rw (e, f, t, u) (Permᴰ.refl (select p l))
    ]
  ]
  select-perm p (Permᴰ.trans h k) = Permᴰ.trans (select-perm p h) (select-perm p k)

  pub Elem-select :
      (p : A → Bool) (a : A) (xs : List A) → Elem a (select p xs) → Elem a xs × (p a ≡ true)
  Elem-select p a [] m = absurd m
  Elem-select p a (x ∷ xs) m = elim (Bool-cases (p x)) [
    | inl e ↦ elim (rw e at m) [
      | inl f ↦ (inl f, rw f e)
      | inr n ↦ (let k = Elem-select p a xs n in (inr k.0, k.1))
    ]
    | inr e ↦ (let k = Elem-select p a xs (rw e at m) in (inr k.0, k.1))
  ]

  pub All-select : (p : A → Bool) (xs : List A) → All (λ x. p x ≡ true) (select p xs)
  All-select p [] = tt
  All-select p (x ∷ xs) = elim (Bool-cases (p x)) [
    | inl e ↦ rw e (e, All-select p xs)
    | inr e ↦ rw e (All-select p xs)
  ]

  -- A list of which all passes, of which nothing passes, and a test after a weaker test.
  pub select_kept : (p : A → Bool) (xs : List A) → All (λ x. p x ≡ true) xs → select p xs ≡ xs
  select_kept p [] h = refl
  select_kept p (x ∷ xs) h = rw h.0 (ap (◌∷◌ x) (select_kept p xs h.1))

  pub select_none : (p : A → Bool) (xs : List A) → All (λ x. p x ≡ false) xs → select p xs ≡ []
  select_none p [] h = refl
  select_none p (x ∷ xs) h = rw h.0 (select_none p xs h.1)

  pub select-append :
      (p : A → Bool) (xs ys : List A) → select p (xs ++ ys) ≡ select p xs ++ select p ys
  select-append p [] ys = refl
  select-append p (x ∷ xs) ys = elim (Bool-cases (p x)) [
    | inl e ↦ rw e (ap (◌∷◌ x) (select-append p xs ys))
    | inr e ↦ rw e (select-append p xs ys)
  ]

  pub select-select :
      (p q : A → Bool) (xs : List A)
      → ((x : A) → p x ≡ true → q x ≡ true)
      → select p (select q xs) ≡ select p xs
  select-select p q [] h = refl
  select-select p q (x ∷ xs) h = elim (Bool-cases (p x)) [
    | inl f ↦ rw (h x f, f) (ap (◌∷◌ x) (select-select p q xs h))
    | inr f ↦ elim (Bool-cases (q x)) [
      | inl e ↦ rw (e, f) (select-select p q xs h)
      | inr e ↦ rw (e, f) (select-select p q xs h)
    ]
  ]

-- What an `ORDER BY` gives: a strict order, by which two rows may stand in either order.
pub record IsOrdering {A : Type 0} (before : A → A → Bool) : Type 0 where
  pub not_before : (x y : A) → before x y ≡ true → before y x ≡ false
  pub between : (x y z : A) → before x y ≡ false → before y z ≡ false → before x z ≡ false

module _ {A : Type 0} (before : A → A → Bool) where
  -- No row stands after one that it comes before.
  abbrev pub IsOrdered : List A → Type 0
  IsOrdered [] = Unit
  IsOrdered (x ∷ xs) = All (λ y. before y x ≡ false) xs × IsOrdered xs

  pub IsOrdered-take : (n : ℕ) (xs : List A) → IsOrdered xs → IsOrdered (take n xs)
  IsOrdered-take zero xs h = tt
  IsOrdered-take (suc n) [] h = tt
  IsOrdered-take (suc n) (x ∷ xs) h =
      (All-take (λ y. before y x ≡ false) n xs h.0, IsOrdered-take n xs h.1)

  -- The rows that pass the test, in that order, from the offset on and up to the limit. Rows that
  -- come neither before nor after each other may stand in any order.
  abbrev pub IsPage : (A → Bool) → ℕ → ℕ → List A → List A → Type 0
  IsPage p limit offset rows page =
      (ordered : List A) × Permᴰ (select p rows) ordered
      × IsOrdered ordered
      × (page ≡ take limit (drop offset ordered))

pub append_nil : {A : Type 0} (xs : List A) → xs ++ [] ≡ xs
append_nil [] = refl
append_nil (x ∷ xs) = ap (λ l. x ∷ l) (append_nil xs)

pub append_assoc : {A : Type 0} (xs ys zs : List A) → (xs ++ ys) ++ zs ≡ xs ++ (ys ++ zs)
append_assoc [] ys zs = refl
append_assoc (x ∷ xs) ys zs = ap (λ l. x ∷ l) (append_assoc xs ys zs)

pub drop-append : {A : Type 0} (xs ys : List A) → drop (length xs) (xs ++ ys) ≡ ys
drop-append [] ys = refl
drop-append (x ∷ xs) ys = drop-append xs ys
