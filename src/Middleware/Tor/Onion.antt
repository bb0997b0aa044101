-- ===== src/Middleware/Tor/Onion.antt =====
-- The header that names the onion address, for each way to write the address.
use echo_backend.Base.{
  ℕ, ◌≤◌, ◌≡◌, ◌∙◌, refl, ap, Bool, Bool-cases, true, false, inl, inr, [], ◌∷◌, ◌++◌, ◌==◌, count,
  drop-append, append_nil, count-append, count-perm, arith,
}
use mathlib.Core.List.{reverse, reverse-append, reverse-reverse}
use mathlib.Core.List.Permᴰ
use echo_backend.Text.{Text, codes, is_empty, trim_space, has_prefix, text_eq}
use echo_backend.Text.Laws.{has_prefix-append, has_prefix-count}
use echo_backend.Middleware.Headers.{Headers, header}
use echo_backend.Middleware.Headers.Laws.{header-del}
use echo_backend.Middleware.Secured.{header-put, header-put_other, header-del_other}
use echo_backend.Middleware.Tor.{trim_prefix, trim_suffix, onion_host, tor}

pub data Scheme : Type 0 where
  no_scheme http https : Scheme

abbrev pub scheme_text : Scheme → Text
scheme_text no_scheme = []
scheme_text http = codes "http://"
scheme_text https = codes "https://"

abbrev pub slash_text : Bool → Text
slash_text true = codes "/"
slash_text false = []

-- A host has no colon and no slash.
abbrev pub IsHost : Text → Type 0
IsHost host =
    (count (λ x. x == b':') host ≡ 0) × (count (λ x. x == b'/') host ≡ 0) × (is_empty host ≡ false)

trim_prefix-append : (p s : Text) → trim_prefix (p ++ s) p ≡ s
unfolding trim_prefix
trim_prefix-append p s = rw (has_prefix-append p s) (drop-append p s)

-- A prefix with a code that the text does not have stays.
trim_prefix_other :
    (c : ℕ) (s p : Text)
    → count (λ x. x == c) s ≡ 0
    → 1 ≤ count (λ x. x == c) p
    → trim_prefix s p ≡ s
unfolding trim_prefix
trim_prefix_other c s p h k = elim (Bool-cases (has_prefix s p)) [
  | inl e ↦ absurd (omega (arith, has_prefix-count c s p e, h, k))
  | inr e ↦ rw e refl
]

trim_suffix_slash : (s : Text) → trim_suffix (s ++ codes "/") (codes "/") ≡ s
unfolding trim_suffix
trim_suffix_slash s =
    ap (λ l. reverse (trim_prefix l (reverse (codes "/")))) (reverse-append s (codes "/"))
    ∙ ap reverse (trim_prefix-append (codes "/") (reverse s))
    ∙ reverse-reverse s

trim_suffix_other : (s : Text) → count (λ x. x == b'/') s ≡ 0 → trim_suffix s (codes "/") ≡ s
unfolding trim_suffix
trim_suffix_other s h =
    ap reverse (
      trim_prefix_other b'/' (reverse s) (codes "/") (count-perm _ (Permᴰ.reverse s) ∙ h)
        (omega arith))
    ∙ reverse-reverse s

-- No code of the scheme's prefix is left to remove when the host and its slash have no colon.
no_scheme_left :
    (prefix rest : Text)
    → 1 ≤ count (λ x. x == b':') prefix
    → count (λ x. x == b':') rest ≡ 0
    → trim_prefix rest prefix ≡ rest
no_scheme_left prefix rest k h = trim_prefix_other b':' rest prefix h k

-- The fifth code of `https` is no colon.
https_stays :
    (rest : Text)
    → trim_prefix (codes "https://" ++ rest) (codes "http://") ≡ codes "https://" ++ rest
unfolding trim_prefix has_prefix
https_stays rest = refl

no_colon :
    (slash : Bool) (host : Text)
    → IsHost host
    → count (λ x. x == b':') (host ++ slash_text slash) ≡ 0
no_colon true host h = omega (arith, h.0, count-append (λ x. x == b':') host (codes "/"))
no_colon false host h = omega (arith, h.0, count-append (λ x. x == b':') host [])

some_onion :
    (scheme : Scheme) (slash : Bool) (host : Text)
    → is_empty host ≡ false
    → is_empty (scheme_text scheme ++ (host ++ slash_text slash)) ≡ false
unfolding is_empty
some_onion no_scheme slash [] h = cc
some_onion no_scheme slash (c ∷ host) h = refl
some_onion http slash host h = refl
some_onion https slash host h = refl

schemes_gone :
    (scheme : Scheme) (rest : Text)
    → count (λ x. x == b':') rest ≡ 0
    → trim_prefix (trim_prefix (scheme_text scheme ++ rest) (codes "http://")) (codes "https://")
      ≡ rest
schemes_gone no_scheme rest h =
    ap (λ l. trim_prefix l (codes "https://"))
      (no_scheme_left (codes "http://") rest (omega arith) h)
    ∙ no_scheme_left (codes "https://") rest (omega arith) h
schemes_gone http rest h =
    ap (λ l. trim_prefix l (codes "https://")) (trim_prefix-append (codes "http://") rest)
    ∙ no_scheme_left (codes "https://") rest (omega arith) h
schemes_gone https rest h =
    ap (λ l. trim_prefix l (codes "https://")) (https_stays rest)
    ∙ trim_prefix-append (codes "https://") rest

slash_gone :
    (slash : Bool) (host : Text)
    → IsHost host
    → trim_suffix (host ++ slash_text slash) (codes "/") ≡ host
slash_gone true host h = trim_suffix_slash host
slash_gone false host h =
    ap (λ l. trim_suffix l (codes "/")) (append_nil host) ∙ trim_suffix_other host h.1

onion_host_lem :
    (scheme : Scheme) (slash : Bool) (host : Text)
    → IsHost host
    → onion_host (scheme_text scheme ++ (host ++ slash_text slash)) ≡ host
unfolding onion_host
onion_host_lem scheme slash host h =
    ap (λ l. trim_suffix l (codes "/"))
      (schemes_gone scheme (host ++ slash_text slash) (no_colon slash host h))
    ∙ slash_gone slash host h

-- For an onion address that is configured as a host, with or without a scheme and a last slash, the
-- response names the address of the request on that host, by plain http; and it does not tell what
-- serves it.
pub tor-onion_host :
    (onion_address uri : Text) (headers : Headers) (scheme : Scheme) (slash : Bool) (host : Text)
    → trim_space onion_address ≡ scheme_text scheme ++ (host ++ slash_text slash)
    → IsHost host
    → (header (tor onion_address uri headers) (codes "Onion-Location")
        ≡ codes "http://" ++ host ++ uri)
      × (header (tor onion_address uri headers) (codes "Server") ≡ [])
      × (header (tor onion_address uri headers) (codes "X-Powered-By") ≡ [])
unfolding tor text_eq
tor-onion_host onion_address uri headers scheme slash host e h =
    rw (e, some_onion scheme slash host h.2, onion_host_lem scheme slash host h)
      (
        header-put (codes "Onion-Location") (codes "http://" ++ host ++ uri)
            (codes "Onion-Location") _,
        header-put_other (codes "Onion-Location") _ (codes "Server") _ refl
            ∙ header-del_other (codes "X-Powered-By") (codes "Server") _ refl
            ∙ header-put (codes "Server") [] (codes "Server") headers,
        header-put_other (codes "Onion-Location") _ (codes "X-Powered-By") _ refl
            ∙ header-del (codes "X-Powered-By") (codes "X-Powered-By") _,
      )
