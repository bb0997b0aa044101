-- ===== src/Middleware/Secured.antt =====
-- The five security headers stay, whatever the middleware after `Security` sets.
use echo_backend.Base.{◌≡◌, ◌∙◌, refl, Bool-cases, true, false, [], inl, inr, if◌then◌else◌}
use echo_backend.Text.{Text, codes, text_eq, is_empty, trim_space}
use echo_backend.Text.Laws.{text_eq_sound}
use echo_backend.Middleware.Headers.{
  Headers, header, put, del, has_text, cors_handler, origin_headers, Cors,
}
use echo_backend.Middleware.Headers.Laws.{header-del}
use echo_backend.Middleware.Security.Redirect.{IsSecured}
use echo_backend.Middleware.Tor.{tor}

pub header-put :
    (name value m : Text) (h : Headers)
    → header (put name value h) m ≡ (if text_eq name m then value else header h m)
unfolding header
header-put name value m h = elim (Bool-cases (text_eq name m)) [
  | inl e ↦ rw e refl
  | inr e ↦ rw e (let x = header-del name m h in rw e at x)
]

pub header-put_other :
    (name value m : Text) (h : Headers)
    → text_eq name m ≡ false
    → header (put name value h) m ≡ header h m
header-put_other name value m h e = header-put name value m h ∙ rw e refl

pub header-del_other :
    (name m : Text) (h : Headers) → text_eq name m ≡ false → header (del name h) m ≡ header h m
header-del_other name m h e = header-del name m h ∙ rw e refl

-- The name is none of the five.
abbrev IsForeign : Text → Type 0
IsForeign name =
    (text_eq name (codes "Content-Security-Policy") ≡ false)
    × (text_eq name (codes "X-Content-Type-Options") ≡ false)
    × (text_eq name (codes "X-Frame-Options") ≡ false)
    × (text_eq name (codes "Referrer-Policy") ≡ false)
    × (text_eq name (codes "Permissions-Policy") ≡ false)

pub put-IsSecured :
    (name value : Text) (h : Headers) → IsForeign name → IsSecured h → IsSecured (put name value h)
put-IsSecured name value h (a, b, c, d, e) (p, q, r, s, t) = (
  header-put_other name value _ h a ∙ p,
  header-put_other name value _ h b ∙ q,
  header-put_other name value _ h c ∙ r,
  header-put_other name value _ h d ∙ s,
  header-put_other name value _ h e ∙ t,
)

del-IsSecured : (name : Text) (h : Headers) → IsForeign name → IsSecured h → IsSecured (del name h)
del-IsSecured name h (a, b, c, d, e) (p, q, r, s, t) = (
  header-del_other name _ h a ∙ p,
  header-del_other name _ h b ∙ q,
  header-del_other name _ h c ∙ r,
  header-del_other name _ h d ∙ s,
  header-del_other name _ h e ∙ t,
)

pub tor-IsSecured : (onion uri : Text) (h : Headers) → IsSecured h → IsSecured (tor onion uri h)
unfolding tor text_eq
tor-IsSecured onion uri h s =
    let named : IsSecured (del (codes "X-Powered-By") (put (codes "Server") [] h)) =
      del-IsSecured _ _ (refl, refl, refl, refl, refl)
        (put-IsSecured (codes "Server") [] h (refl, refl, refl, refl, refl) s) in
    elim (Bool-cases (is_empty (trim_space onion))) [
      | inl e ↦ rw e named
      | inr e ↦ rw e (put-IsSecured _ _ _ (refl, refl, refl, refl, refl) named)
    ]

origin_headers-IsSecured :
    (m : Cors) (origin : Text) (h : Headers) → IsSecured h → IsSecured (origin_headers m origin h)
unfolding origin_headers text_eq
origin_headers-IsSecured m origin h s = elim (Bool-cases m.allow_all) [
  | inl e ↦ rw e (put-IsSecured _ _ h (refl, refl, refl, refl, refl) s)
  | inr e ↦ elim (Bool-cases (has_text origin m.origins)) [
    | inl f ↦
        rw (e, f)
          (put-IsSecured _ _ _ (refl, refl, refl, refl, refl)
            (put-IsSecured _ _ h (refl, refl, refl, refl, refl) s))
    | inr f ↦ rw (e, f) s
  ]
]

pub cors_handler-IsSecured :
    (m : Cors) (origin method : Text) (h : Headers)
    → IsSecured h
    → IsSecured (cors_handler m origin method h).0
unfolding cors_handler text_eq
cors_handler-IsSecured m origin method h s = elim (Bool-cases (is_empty origin)) [
  | inl e ↦ rw e s
  | inr e ↦ rw e (
      put-IsSecured _ _ _ (refl, refl, refl, refl, refl)
        (put-IsSecured _ _ _ (refl, refl, refl, refl, refl)
          (origin_headers-IsSecured m origin h s)))
]

pub cors_handler-ended :
    (m : Cors) (origin method : Text) (h : Headers)
    → (cors_handler m origin method h).1 ≡ true
    → method ≡ codes "OPTIONS"
unfolding cors_handler
cors_handler-ended m origin method h e = elim (Bool-cases (is_empty origin)) [
  | inl f ↦ (let g = (rw f at e) in cc g)
  | inr f ↦ (let g = (rw f at e) in text_eq_sound method (codes "OPTIONS") g)
]
