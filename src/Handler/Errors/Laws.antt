-- ===== src/Handler/Errors/Laws.antt =====
-- internal/handler/errors.go: what a client is told of an error.
use echo_backend.Base.{ℕ, ◌≡◌, refl, true, Option, none, some, arith}
use echo_backend.Text.{Text, codes, text_eq}
use echo_backend.Errors.{
  Sentinel, Error, sentinel, failure, wrapped, sentinel_eq, is_error, sentinel_text, not_found,
  unauthorized, forbidden, conflict, invalid_input, record_not_found, redis_nil,
}
use echo_backend.Handler.Errors.{
  Response, domain_error, write_domain_error, map_domain_error, message_by_code,
}

-- The status and the code of each sentinel of the package domain.
abbrev pub published : Sentinel → Option (ℕ × Text)
published invalid_input = some (400, codes "ERR_INVALID_INPUT")
published unauthorized = some (401, codes "ERR_UNAUTHORIZED")
published forbidden = some (403, codes "ERR_FORBIDDEN")
published not_found = some (404, codes "ERR_NOT_FOUND")
published conflict = some (409, codes "ERR_CONFLICT")
published record_not_found = none
published redis_nil = none

-- What the client is told where the sentinel is published, and where it is not.
abbrev pub told : {A : Type 0} → Sentinel → Option (ℕ × Text) → Response A
told s (some (status, code)) = domain_error status (sentinel_text s) code
told s none = domain_error 500 (codes "internal error") (codes "ERR_INTERNAL")

sentinel_eq_sound : (s t : Sentinel) → sentinel_eq s t ≡ true → s ≡ t
unfolding sentinel_eq
sentinel_eq_sound s t h = ground arith

write_sentinel :
    (A : Type 0) (s : Sentinel) → write_domain_error {A = A} (sentinel s) ≡ told s (published s)
unfolding write_domain_error map_domain_error message_by_code is_error sentinel_eq text_eq
write_sentinel A not_found = refl
write_sentinel A unauthorized = refl
write_sentinel A forbidden = refl
write_sentinel A conflict = refl
write_sentinel A invalid_input = refl
write_sentinel A record_not_found = refl
write_sentinel A redis_nil = refl

-- An error under any number of wrappings is answered with the status and the code of the sentinel
-- that `errors.Is` finds in it, and with that sentinel's own text; the sentinels of other libraries
-- are answered 500, with nothing of the error's text.
pub write_domain_error-told :
    (A : Type 0) (e : Error) (s : Sentinel)
    → is_error e s ≡ true
    → write_domain_error {A = A} e ≡ told s (published s)
unfolding write_domain_error map_domain_error message_by_code is_error sentinel_eq text_eq
write_domain_error-told A (sentinel s) t h = rw (← sentinel_eq_sound s t h) (write_sentinel A s)
write_domain_error-told A (failure x) t h = cc
write_domain_error-told A (wrapped x e) t h = write_domain_error-told A e t h
