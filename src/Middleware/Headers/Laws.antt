-- ===== src/Middleware/Headers/Laws.antt =====
-- What the header filters leave.
use echo_backend.Base.{
  ◌≡◌, ◌∙◌, refl, ap, Bool, Bool-cases, true, false, ◌||◌, some, List, [], ◌∷◌, inl, inr,
  if◌then◌else◌,
}
use echo_backend.Text.{Text, codes, text_eq, is_empty}
use echo_backend.Text.Laws.{text_eq_sound, text_eq_refl}
use echo_backend.Middleware.Gin.{Context, set, text_value}
use echo_backend.Middleware.Headers.{
  Headers, header, del, strip_header_names, strip, leaks, no_ip_context, no_ip, has_text,
  ip_headers,
}

pub header-del :
    (name m : Text) (h : Headers)
    → header (del name h) m ≡ (if text_eq name m then [] else header h m)
unfolding header del
header-del name m [] = elim (Bool-cases (text_eq name m)) [ inl e ↦ rw e refl | inr e ↦ rw e refl ]
header-del name m ((k, v) ∷ h) = elim (Bool-cases (text_eq k name)) [
  | inl e ↦ elim (Bool-cases (text_eq name m)) [
    | inl f ↦ rw (e, f) (let ih = header-del name m h in rw f at ih)
    | inr f ↦
        let same : text_eq k m ≡ false = rw (text_eq_sound k name e) f in
        rw (e, f, same) (let ih = header-del name m h in rw f at ih)
  ]
  | inr e ↦ elim (Bool-cases (text_eq name m)) [
    | inl f ↦
        let other : text_eq k m ≡ false = rw (← text_eq_sound name m f) e in
        rw (e, f, other) (let ih = header-del name m h in rw f at ih)
    | inr f ↦
        rw (e, f)
          (ap (λ x. if text_eq k m then v else x) (let ih = header-del name m h in rw f at ih))
  ]
]

header-strip :
    (names : List Text) (h : Headers) (m : Text)
    → header (strip names h) m ≡ (if has_text m names then [] else header h m)
unfolding strip has_text
header-strip [] h m = refl
header-strip (name ∷ names) h m = elim (Bool-cases (has_text m names)) [
  | inl e ↦
      (let ih = header-strip names (del name h) m in
        elim (Bool-cases (text_eq name m)) [
          | inl f ↦ rw f (rw e at ih)
          | inr f ↦ rw (f, e) (rw e at ih)
        ])
  | inr e ↦
      let ih : header (strip names (del name h)) m ≡ header (del name h) m =
        (let x = header-strip names (del name h) m in rw e at x) in
      ih
      ∙ header-del name m h
      ∙ (elim (Bool-cases (text_eq name m)) [ inl f ↦ rw f refl | inr f ↦ rw (f, e) refl ])
]

orb_right : (a b : Bool) → b ≡ true → (a || b) ≡ true
orb_right true b e = refl
orb_right false b e = e

leaks-strip :
    (names names' : List Text) (h : Headers)
    → ((m : Text) → has_text m names ≡ true → has_text m names' ≡ true)
    → leaks names (strip names' h) ≡ false
unfolding leaks has_text is_empty
leaks-strip [] names' h within = refl
leaks-strip (name ∷ names) names' h within =
    let gone : header (strip names' h) name ≡ [] =
      header-strip names' h name ∙ rw (within name (rw (text_eq_refl name) refl)) refl in
    let rest : leaks names (strip names' h) ≡ false =
      leaks-strip names names' h
        (λ m e. within m (orb_right (text_eq name m) (has_text m names) e)) in
    rw (gone, rest) refl

no_ip_context_lem :
    (h : Headers) (development : Bool)
    → leaks ip_headers h ≡ false
    → no_ip_context h development ≡ some tt
unfolding no_ip_context
no_ip_context_lem h true quiet = rw quiet refl
no_ip_context_lem h false quiet = refl

no_ip_lem :
    (development : Bool) (h : Headers) (c : Context)
    → no_ip_context (strip strip_header_names h) development ≡ some tt
    → no_ip development h c
      ≡ some (strip strip_header_names h, set (codes "client_ip") (text_value []) c)
unfolding no_ip
no_ip_lem development h c audit = rw (audit, no_ip) refl

-- In development as in production, a request passes the audit, for the four headers that name a
-- client's address are gone; the handlers find an empty `client_ip`. Each other header stays as it
-- was.
pub no_ip-strip :
    (development : Bool) (h : Headers) (c : Context) (name : Text)
    → (stripped : Headers) × (no_ip development h c
        ≡ some (stripped, set (codes "client_ip") (text_value []) c))
      × (header stripped name ≡ (if has_text name ip_headers then [] else header h name))
no_ip-strip development h c name = (
  strip strip_header_names h,
  no_ip_lem development h c (
      no_ip_context_lem (strip strip_header_names h) development
        (leaks-strip ip_headers strip_header_names h (λ m e. e))),
  header-strip strip_header_names h name,
)
