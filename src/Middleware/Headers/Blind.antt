-- ===== src/Middleware/Headers/Blind.antt =====
-- internal/middleware/noip.go: what a header that names the client's address says is not seen.
use echo_backend.Base.{
  ◌≡◌, ◌∙◌, refl, ap, Bool, Bool-cases, true, false, Option, none, some, List, [], ◌∷◌, inl, inr,
  if◌then◌else◌,
}
use echo_backend.Text.{Text, codes, text_eq}
use echo_backend.Text.Laws.{text_eq_sound, text_eq_refl}
use echo_backend.Middleware.Gin.{Context, set, text_value}
use echo_backend.Middleware.Headers.{
  Headers, del, put, strip, strip_header_names, no_ip_context, no_ip, has_text,
}

del-cons :
    (name k v : Text) (h : Headers)
    → del name ((k, v) ∷ h) ≡ (if text_eq k name then del name h else (k, v) ∷ del name h)
unfolding del
del-cons name k v h = refl

del-del : (name m : Text) (h : Headers) → del name (del m h) ≡ del m (del name h)
del-del name m [] = unfold del in refl
del-del name m ((k, v) ∷ h) = elim (Bool-cases (text_eq k name)) [
  | inl e ↦ elim (Bool-cases (text_eq k m)) [
    | inl f ↦ simp (del-cons, e, f, del-del name m h)
    | inr f ↦ simp (del-cons, e, f, del-del name m h)
  ]
  | inr e ↦ elim (Bool-cases (text_eq k m)) [
    | inl f ↦ simp (del-cons, e, f, del-del name m h)
    | inr f ↦ simp (del-cons, e, f, del-del name m h)
  ]
]

del_twice : (name : Text) (h : Headers) → del name (del name h) ≡ del name h
del_twice name [] = unfold del in refl
del_twice name ((k, v) ∷ h) = elim (Bool-cases (text_eq k name)) [
  | inl e ↦ simp (del-cons, e, del_twice name h)
  | inr e ↦ simp (del-cons, e, del_twice name h)
]

del-put : (name value : Text) (h : Headers) → del name (put name value h) ≡ del name h
unfolding del
del-put name value h = rw (text_eq_refl name) (del_twice name h)

del-put_other :
    (m name value : Text) (h : Headers)
    → text_eq name m ≡ false
    → del m (put name value h) ≡ put name value (del m h)
del-put_other m name value h e = simp (del-cons, e, del-del name m h)

further :
    (name m : Text) (names : List Text)
    → text_eq name m ≡ false
    → has_text name (m ∷ names) ≡ true
    → has_text name names ≡ true
unfolding has_text
further name m names other e = elim (Bool-cases (text_eq m name)) [
  | inl f ↦ (let g = rw (text_eq_sound m name f, text_eq_refl name) at other in cc)
  | inr f ↦ (rw f at e)
]

-- A header that is stripped may have had any value, or none.
pub strip-put :
    (names : List Text) (name value : Text) (h : Headers)
    → has_text name names ≡ true
    → strip names (put name value h) ≡ strip names h
unfolding strip has_text
strip-put [] name value h e = cc
strip-put (m ∷ names) name value h e = elim (Bool-cases (text_eq name m)) [
  | inl same ↦ rw (← text_eq_sound name m same) (ap (strip names) (del-put name value h))
  | inr other ↦
      ap (strip names) (del-put_other m name value h other)
      ∙ strip-put names name value (del m h) (further name m names other e)
]

pub strip-del :
    (names : List Text) (name : Text) (h : Headers)
    → has_text name names ≡ true
    → strip names (del name h) ≡ strip names h
unfolding strip has_text
strip-del [] name h e = cc
strip-del (m ∷ names) name h e = elim (Bool-cases (text_eq name m)) [
  | inl same ↦ rw (← text_eq_sound name m same) (ap (strip names) (del_twice name h))
  | inr other ↦
      ap (strip names) (del-del m name h)
      ∙ strip-del names name (del m h) (further name m names other e)
]

pub no_ip-strip_only :
    (development : Bool) (h h' : Headers) (c : Context)
    → strip strip_header_names h ≡ strip strip_header_names h'
    → no_ip development h c ≡ no_ip development h' c
unfolding no_ip
no_ip-strip_only development h h' c e =
    ap
      (λ (x : Headers). elim (no_ip_context x development) as (λ _. Option (Headers × Context)) [
        | none ↦ none
        | some _ ↦ some (x, set (codes "client_ip") (text_value []) c)
      ])
      e
