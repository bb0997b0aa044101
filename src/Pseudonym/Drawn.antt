-- ===== src/Pseudonym/Drawn.antt =====
-- What `Generate` draws.
use echo_backend.Base.{
  ℕ, zero, suc, ◌+◌, ◌<◌, ◌≤◌, ◌≡◌, ◌∙◌, refl, ap, some, List, [], ◌∷◌, ◌++◌, length, Elem, inl,
  inr, arith,
}
use echo_backend.Base.Int.{pos}
use echo_backend.Text.{Text, codes, itoa}
use echo_backend.Pseudonym.{Random, get_elem?, spelled, generate}

below_thousand : (k : ℕ) → k < 900 → 100 + k ≤ 999
below_thousand k h = omega arith

module _ {G : Type 0} (intn : ℕ → G → ℕ × G) where
  abbrev pub IsPseudonym : Random G → Text → Type 0
  IsPseudonym r t =
      (adjective noun : Text) × (num : ℕ) × Elem adjective r.adjectives
      × Elem noun r.nouns
      × (100 ≤ num)
      × (num ≤ 999)
      × (t ≡ adjective ++ codes "-" ++ noun ++ codes "-" ++ itoa (pos num))

  get_elem?_lem :
      (xs : List Text) (i : ℕ) → i < length xs → (x : Text) × (get_elem? xs i ≡ some x) × Elem x xs
  unfolding get_elem?
  get_elem?_lem [] i h = absurd (omega arith)
  get_elem?_lem (x ∷ xs) zero h = (x, refl, inl refl)
  get_elem?_lem (x ∷ xs) (suc i) h =
      let (y, e, m) = get_elem?_lem xs i (omega arith) in (y, e, inr m)

  -- `Intn(n)` is below `n`. Then no index is out of range while there are adjectives and nouns:
  -- each pseudonym is one of each and a number from 100 to 999, and the lists stay.
  pub generate-IsPseudonym :
      ((n : ℕ) (g : G) → 0 < n → (intn n g).0 < n)
      → (r : Random G) → 0 < length r.adjectives
      → 0 < length r.nouns
      → (t : Text) × (r' : Random G) × (generate intn r ≡ (some t, r'))
        × IsPseudonym r t
        × (r'.adjectives ≡ r.adjectives)
        × (r'.nouns ≡ r.nouns)
  unfolding generate
  generate-IsPseudonym bounded r some_adjective some_noun =
      let (i, g₁) = intn (length r.adjectives) r.rnd in
      let (j, g₂) = intn (length r.nouns) g₁ in
      let (k, g₃) = intn 900 g₂ in
      let (a, a_found, a_listed) = get_elem?_lem r.adjectives i (bounded _ r.rnd some_adjective) in
      let (n, n_found, n_listed) = get_elem?_lem r.nouns j (bounded _ g₁ some_noun) in
      (
        a ++ codes "-" ++ n ++ codes "-" ++ itoa (pos (100 + k)),
        record r { rnd = g₃ },
        ap (λ x. (spelled x (get_elem? r.nouns j) (100 + k), record r { rnd = g₃ })) a_found
            ∙ ap (λ x. (spelled (some a) x (100 + k), record r { rnd = g₃ })) n_found,
        (
          a,
          n,
          100 + k,
          a_listed,
          n_listed,
          omega arith,
          below_thousand k (bounded 900 g₂ (omega arith)),
          refl,
        ),
        refl,
        refl,
      )
