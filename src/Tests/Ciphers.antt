-- ===== src/Tests/Ciphers.antt =====
-- Redis and the libraries of the two Auth types in memory: a hash is the text itself, and a token
-- spells its claims.
use mathlib.Core.Path.{subst}
use echo_backend.Base.{
  ℕ, zero, suc, ◌≡◌, ◌∙◌, refl, sym, ap, Bool, true, false, Option, none, some, [], ◌∷◌, ◌++◌, ◌==◌,
  ltb, take, length, if◌then◌else◌,
}
use echo_backend.Base.Int.{pos}
use echo_backend.Text.{Text, codes, text_eq}
use echo_backend.Text.Laws.{text_eq_refl}
use echo_backend.Errors.{Error, Result, ok, err, sentinel, failure, redis_nil}
use echo_backend.Effect.{M, Ensures}
use echo_backend.Effect.Rules.{returned, failed}
use echo_backend.Crypto.{Crypto, Claims, SigningMethod, hmac, Parsed, IsCrypto}
use echo_backend.Redis.{Redis, IsRedis, Gets}
use echo_backend.Service.Auth.{AuthService}
use echo_backend.Service.Auth.Session.{IsAuth}
use echo_backend.Tests.World.{
  World, view, live_keys, database, database-IsDatabase, system, system-IsSystem,
}

abbrev told : Option Text → M World Text
told (some v) w = (ok v, w)
told none w = (err (sentinel redis_nil), w)

abbrev with_key : Text → Option Text → World → World
with_key k o w = record w { keys = λ j. if text_eq j k then o else w.keys j }

unfoldable pub redis : Redis World
unfolding text_eq
redis = record {
  get = λ k w. told (w.keys k) w;
  set = λ k v ttl w. (ok tt, with_key k (some v) w);
  del = λ k w. (ok tt, with_key k none w);
}

told-Gets :
    (k : Text) (o : Option Text) (w : World) → w.keys k ≡ o → Gets live_keys view k w (told o w)
told-Gets k (some v) w e = returned _ _ _ _ (e, refl)
told-Gets k none w e = failed _ _ _ _ (λ _. e, refl)

with_key_self : (k : Text) (o : Option Text) (w : World) → (with_key k o w).keys k ≡ o
with_key_self k o w = rw (text_eq_refl k)

pub redis-IsRedis : IsRedis live_keys view redis
unfolding redis
redis-IsRedis = record {
  get_lem = λ k w. told-Gets k (w.keys k) w refl;
  set_lem = λ k v ttl w. returned _ _ _ _ (with_key_self k (some v) w, refl);
  del_lem = λ k w. returned _ _ _ _ (with_key_self k none w, refl);
}

abbrev rest_after : ℕ → Text → Text
rest_after zero s = s
rest_after (suc n) [] = []
rest_after (suc n) (c ∷ s) = rest_after n s

abbrev pub spell : Claims → Text
spell c =
    (if c.is_admin then 1 else 0)
    ∷ c.expires_at
    ∷ c.issued_at
    ∷ length c.user_id
    ∷ (c.user_id ++ c.pseudonym)

abbrev pub read : Text → Option Claims
read (admin ∷ expires_at ∷ issued_at ∷ n ∷ s) = some (record {
  user_id = take n s;
  pseudonym = rest_after n s;
  is_admin = admin == 1;
  expires_at = expires_at;
  issued_at = issued_at;
})
read _ = none

take-spell : (s t : Text) → take (length s) (s ++ t) ≡ s
take-spell [] t = refl
take-spell (c ∷ s) t = ap (λ r. c ∷ r) (take-spell s t)

rest_after-spell : (s t : Text) → rest_after (length s) (s ++ t) ≡ t
rest_after-spell [] t = refl
rest_after-spell (c ∷ s) t = rest_after-spell s t

flag-spell : (b : Bool) → ((if b then 1 else 0) == 1) ≡ b
flag-spell true = refl
flag-spell false = refl

pub read-spell : (c : Claims) → read (spell c) ≡ some c
read-spell c = rw (
  take-spell c.user_id c.pseudonym,
  rest_after-spell c.user_id c.pseudonym,
  flag-spell c.is_admin,
)

abbrev pub is_live : Claims → World → Bool
is_live c w = ltb w.clock c.expires_at

abbrev bad_token : Error
bad_token = failure (codes "token is invalid")

abbrev checked : Option Claims → Result Text → M World Parsed
checked (some c) (ok _) w = (
  if is_live c w then ok (record { claims = c; valid = true; typed = true }) else err bad_token,
  w,
)
checked (some c) (err e) w = (err e, w)
checked none _ w = (err bad_token, w)

unfoldable pub crypto : Crypto World
unfolding text_eq
crypto = record {
  uuid_string = λ u. u ∷ [];
  uuid_parse =
      λ s. elim s [ [] ↦ err bad_token | u ∷ s' ↦ elim s' [ [] ↦ ok u | _ ∷ _ ↦ err bad_token ] ];
  numeric_date = λ t. t;
  jwt_sign = λ secret c. ok (spell c);
  jwt_parse = λ token key w. checked (read token) (key hmac) w;
  bcrypt_generate = λ text w. (ok text, w);
  bcrypt_compare = λ hash text. if text_eq hash text then ok tt else err bad_token;
  sha256 = λ text. text;
}

either_reads :
    {A : Type 0} (b : Bool) (x : A) (e : Error) (w : World)
    → Ensures (λ _ w'. view w' ≡ view w) (λ _ w'. view w' ≡ view w) (if b then ok x else err e, w)
either_reads true x e w = returned _ _ _ _ refl
either_reads false x e w = failed _ _ _ _ refl

checked_reads :
    (o : Option Claims) (r : Result Text) (w : World)
    → Ensures (λ _ w'. view w' ≡ view w) (λ _ w'. view w' ≡ view w) (checked o r w)
unfolding Ensures
checked_reads (some c) (ok _) w = either_reads (is_live c w) _ bad_token w
checked_reads (some c) (err e) w = refl
checked_reads none _ w = refl

checked-spell :
    (secret : Text) (c : Claims) (token : Text) (r : Result Text) (w : World)
    → ok (spell c) ≡ ok token
    → r ≡ ok secret
    → is_live c w ≡ true
    → (checked (read token) r w).0 ≡ ok (record { claims = c; valid = true; typed = true })
checked-spell secret c token r w signed keyed live =
    let spelled : spell c ≡ token = cc in
    let known : read token ≡ some c = ap read (sym spelled) ∙ read-spell c in
    subst (λ o. (checked o r w).0 ≡ ok (record { claims = c; valid = true; typed = true }))
      (sym known) (rw keyed (rw live))

checked_keeps : (o : Option Claims) (r : Result Text) (w : World) → (checked o r w).1 ≡ w
checked_keeps (some c) (ok _) w = refl
checked_keeps (some c) (err e) w = refl
checked_keeps none _ w = refl

pub jwt_parse_keeps :
    (token : Text) (key : SigningMethod → Result Text) (w : World)
    → live_keys (crypto.jwt_parse token key w).1 ≡ live_keys w
unfolding crypto
jwt_parse_keeps token key w = ap live_keys (checked_keeps (read token) (key hmac) w)

pub crypto-IsCrypto : IsCrypto crypto is_live view
unfolding crypto
crypto-IsCrypto = record {
  parse-string = λ u. refl;
  parse-sign = λ secret c token key w signed keyed live.
      checked-spell secret c token (key hmac) w signed keyed live;
  jwt_parse_reads = λ token key w. checked_reads (read token) (key hmac) w;
  generate_lem = λ text w. returned _ _ _ _ (rw (text_eq_refl text), refl);
}

unfoldable pub auth : AuthService World
auth = record {
  db = database 0;
  sys = system;
  redis = redis;
  crypto = crypto;
  generate = λ w. (codes "silent-fox-100", w);
  secret = codes "change-me";
  ttl = pos 1000;
}

pub auth-IsAuth : IsAuth auth view live_keys is_live
unfolding auth
auth-IsAuth = record {
  database = database-IsDatabase 0;
  system = system-IsSystem;
  sessions = redis-IsRedis;
  crypto = crypto-IsCrypto;
  generate_reads = λ w. refl;
  parse_keeps = jwt_parse_keeps;
}
