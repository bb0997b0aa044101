-- ===== src/Middleware/Headers/Origins.antt =====
-- internal/middleware/cors.go: which origins a browser is told of.
use echo_backend.Base.{◌≡◌, ◌∙◌, refl, Bool-cases, true, false, ◌⊎◌, inl, inr, List, [], ◌∷◌, Elem}
use echo_backend.Text.{Text, codes, text_eq, is_empty, trim_space}
use echo_backend.Text.Laws.{text_eq_sound}
use echo_backend.Middleware.Headers.{
  Headers, header, put, Cors, allow, allow_each, new_cors, has_text, origin_headers, cors_handler,
}
use echo_backend.Middleware.Headers.Laws.{header-del}

-- The text is one of the configured origins, after trimming.
abbrev pub IsListed : Text → List Text → Type 0
IsListed t allowed = (s : Text) × Elem s allowed × (trim_space s ≡ t)

-- Whatever the middleware allows is configured.
abbrev IsConfigured : List Text → Cors → Type 0
IsConfigured allowed m =
    (m.allow_all ≡ true → IsListed (codes "*") allowed)
    × ((t : Text) → has_text t m.origins ≡ true → IsListed t allowed)

allow-IsConfigured :
    (allowed : List Text) (origin : Text) (m : Cors)
    → Elem origin allowed
    → IsConfigured allowed m
    → IsConfigured allowed (allow origin m)
unfolding allow has_text
allow-IsConfigured allowed origin m listed h = elim (Bool-cases (is_empty (trim_space origin))) [
  | inl blank ↦ rw (blank, allow) h
  | inr some_text ↦ elim (Bool-cases (text_eq (trim_space origin) (codes "*"))) [
    | inl star ↦ rw (some_text, star, allow) (λ _. (origin, listed, text_eq_sound _ _ star), h.1)
    | inr other ↦
        rw (some_text, other, allow)
          (
            h.0,
            λ t found. elim (Bool-cases (text_eq (trim_space origin) t)) [
              | inl here ↦ (origin, listed, text_eq_sound _ _ here)
              | inr there ↦ h.1 t (rw there at found)
            ],
          )
  ]
]

allow_each-IsConfigured :
    (allowed origins : List Text) (m : Cors)
    → ((s : Text) → Elem s origins → Elem s allowed)
    → IsConfigured allowed m
    → IsConfigured allowed (allow_each origins m)
unfolding allow_each
allow_each-IsConfigured allowed [] m within h = h
allow_each-IsConfigured allowed (origin ∷ origins) m within h =
    allow_each-IsConfigured allowed origins (allow origin m) (λ s e. within s (inr e))
      (allow-IsConfigured allowed origin m (within origin (inl refl)) h)

header-put :
    (name value m : Text) (h : Headers)
    → text_eq name m ≡ false
    → header (put name value h) m ≡ header h m
unfolding header
header-put name value m h other = rw other (header-del name m h ∙ rw other refl)

abbrev allow_origin : Text
allow_origin = codes "Access-Control-Allow-Origin"

origin_headers-IsListed :
    (allowed : List Text) (m : Cors) (origin : Text) (h : Headers)
    → IsConfigured allowed m
    → header h allow_origin ≡ []
    → (header (origin_headers m origin h) allow_origin ≡ [])
      ⊎ (IsListed (codes "*") allowed ⊎ IsListed origin allowed)
unfolding origin_headers
origin_headers-IsListed allowed m origin h c none_yet = elim (Bool-cases m.allow_all) [
  | inl all ↦ inr (inl (c.0 all))
  | inr some_only ↦ elim (Bool-cases (has_text origin m.origins)) [
    | inl listed ↦ inr (inr (c.1 origin listed))
    | inr other ↦ inl (rw (some_only, other, origin_headers) none_yet)
  ]
]

-- A response that had no `Access-Control-Allow-Origin` gets one only if the configured origins,
-- trimmed, contain `*` or the origin of the request.
pub cors_handler-IsListed :
    (allowed : List Text) (origin method : Text) (h : Headers)
    → header h (codes "Access-Control-Allow-Origin") ≡ []
    → (header
          (cors_handler (new_cors allowed) origin method h).0
          (codes "Access-Control-Allow-Origin")
        ≡ [])
      ⊎ (IsListed (codes "*") allowed ⊎ IsListed origin allowed)
unfolding cors_handler new_cors has_text text_eq
cors_handler-IsListed allowed origin method h none_yet = elim (Bool-cases (is_empty origin)) [
  | inl blank ↦ inl (rw (blank, cors_handler) none_yet)
  | inr some_origin ↦
      rw (some_origin, cors_handler)
        (rw
          (
            header-put (codes "Access-Control-Allow-Headers") _ allow_origin
                (put (codes "Access-Control-Allow-Methods")
                  (codes "GET,POST,PUT,PATCH,DELETE,OPTIONS")
                  (origin_headers (new_cors allowed) origin h))
                refl,
            header-put (codes "Access-Control-Allow-Methods") _ allow_origin
                (origin_headers (new_cors allowed) origin h) refl,
          )
          (origin_headers-IsListed allowed (new_cors allowed) origin h
            (allow_each-IsConfigured allowed allowed (record { allow_all = false; origins = [] })
              (λ s e. e) (λ e. cc, λ t e. cc))
            none_yet))
]
