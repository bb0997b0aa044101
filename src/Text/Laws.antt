-- ===== src/Text/Laws.antt =====
-- Equality and trimming of texts.
use echo_backend.Base.{ℕ, ◌≤◌, ◌≡◌, refl, true, [], ◌∷◌, ◌++◌, ◌==◌, count, arith}
use echo_backend.Text.{Text, text_eq, has_prefix}

pub text_eq_sound : (s t : Text) → text_eq s t ≡ true → s ≡ t
unfolding text_eq
text_eq_sound [] [] h = refl
text_eq_sound [] (_ ∷ _) h = cc
text_eq_sound (_ ∷ _) [] h = cc
text_eq_sound (a ∷ s) (b ∷ t) h = ground (arith, text_eq_sound s t)

pub text_eq_refl : (s : Text) → text_eq s s ≡ true
unfolding text_eq
text_eq_refl [] = refl
text_eq_refl (a ∷ s) = ground (arith, text_eq_refl s)

pub has_prefix-append : (p s : Text) → has_prefix (p ++ s) p ≡ true
unfolding has_prefix
has_prefix-append [] [] = refl
has_prefix-append [] (_ ∷ _) = refl
has_prefix-append (c ∷ p) s = ground (arith, has_prefix-append p s)

-- A text has each code at least as often as its prefix.
pub has_prefix-count :
    (c : ℕ) (s p : Text) → has_prefix s p ≡ true → count (λ x. x == c) p ≤ count (λ x. x == c) s
unfolding has_prefix
has_prefix-count c s [] h = omega arith
has_prefix-count c [] (_ ∷ _) h = cc
has_prefix-count c (a ∷ s) (b ∷ p) h = ground (arith, has_prefix-count c s p)
