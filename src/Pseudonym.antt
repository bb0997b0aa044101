-- ===== src/Pseudonym.antt =====
-- pkg/pseudonym/generator.go. The random source of math/rand, `G`, is a parameter with its `Intn`;
-- the lock makes each call one step. An index out of range panics, which is `none`.
pub mod Drawn
use echo_backend.Base.{
  ℕ, zero, suc, ◌+◌, ◌<◌, ◌≤◌, ◌≡◌, ◌∙◌, refl, Option, none, some, Bool, List, [], ◌∷◌, ◌++◌, ◌==◌,
  length, Elem, inl, inr, if◌then◌else◌, arith,
}
use echo_backend.Base.Int.{ℤ, pos, negsuc}
use echo_backend.Text.{Text, codes, itoa}

pub record Random (G : Type 0) : Type 0 where
  pub rnd : G
  pub adjectives : List Text
  pub nouns : List Text

abbrev pub or_clock : ℤ → ℤ → ℤ
or_clock (pos zero) now = now
or_clock (pos (suc n)) now = pos (suc n)
or_clock (negsuc n) now = negsuc n

unfoldable pub new_random : {G : Type 0} → (ℤ → G) → ℤ → ℤ → Random G
new_random new_source seed now = record {
  rnd = new_source (or_clock seed now);
  adjectives =
      codes "silent"
      ∷ codes "lunar"
      ∷ codes "amber"
      ∷ codes "gentle"
      ∷ codes "rapid"
      ∷ codes "wild"
      ∷ codes "echo"
      ∷ codes "mellow"
      ∷ codes "solar"
      ∷ codes "velvet"
      ∷ [];
  nouns =
      codes "fox"
      ∷ codes "owl"
      ∷ codes "river"
      ∷ codes "cloud"
      ∷ codes "stone"
      ∷ codes "comet"
      ∷ codes "pine"
      ∷ codes "wave"
      ∷ codes "ember"
      ∷ codes "leaf"
      ∷ [];
}

unfoldable pub get_elem? : {A : Type 0} → List A → ℕ → Option A
get_elem? [] i = none
get_elem? (x ∷ xs) zero = some x
get_elem? (x ∷ xs) (suc i) = get_elem? xs i

abbrev pub spelled : Option Text → Option Text → ℕ → Option Text
spelled (some adjective) (some noun) num =
    some (adjective ++ codes "-" ++ noun ++ codes "-" ++ itoa (pos num))
spelled (some _) none num = none
spelled none _ num = none

module _ {G : Type 0} (intn : ℕ → G → ℕ × G) where
  unfoldable pub generate : Random G → Option Text × Random G
  unfolding get_elem?
  generate r =
      let (i, g₁) = intn (length r.adjectives) r.rnd in
      let (j, g₂) = intn (length r.nouns) g₁ in
      let (k, g₃) = intn 900 g₂ in
      (spelled (get_elem? r.adjectives i) (get_elem? r.nouns j) (100 + k), record r { rnd = g₃ })
