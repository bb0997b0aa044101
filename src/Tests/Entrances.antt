-- ===== src/Tests/Entrances.antt =====
-- A request with the token of a registration, at a concrete world.
use mathlib.Core.Path.{subst}
use echo_backend.Base.{◌≡◌, ◌∙◌, refl, sym, ap, true, false, some, [], ◌∷◌, ◌++◌}
use echo_backend.Text.{Text, codes, is_empty, trim_space, equal_fold, split_space}
use echo_backend.Errors.{failure, ok, err}
use echo_backend.Effect.{◌>>=◌, reject_if, attempt, context, map_error}
use echo_backend.Crypto.{Crypto, Claims, IsCrypto, hex_encode}
use echo_backend.Domain.{Uuid, User}
use echo_backend.Repository.Users.{create}
use echo_backend.Repository.Users.Rows.{with_user}
use echo_backend.Service.Auth.{
  AuthService, register, register_loop, register_round, settle_round, finish_register,
  store_session, sign, token_digest,
}
use echo_backend.Service.Auth.Session.{IsAuth}
use echo_backend.Middleware.Auth.{auth_handler, stored}
use echo_backend.Middleware.Auth.Login.{IsEntered, session_answer}
use echo_backend.Middleware.Auth.Registered.{register-IsEntered}
use echo_backend.Tests.World.{World, view, live_keys, database, system}
use echo_backend.Tests.Ciphers.{
  auth, auth-IsAuth, is_live, redis, crypto, crypto-IsCrypto, spell, read, read-spell,
}
use echo_backend.Tests.Sessions.{world}

-- The text of a UUID is the number between two letters.
named_crypto : Crypto World
unfolding crypto
named_crypto = record crypto {
  uuid_string = λ u. b'u' ∷ u ∷ b'u' ∷ [];
  uuid_parse = λ s. elim s [
    | [] ↦ err (failure (codes "invalid UUID"))
    | _ ∷ rest ↦ elim rest [ [] ↦ err (failure (codes "invalid UUID")) | u ∷ _ ↦ ok u ]
  ];
}

named_crypto-IsCrypto : IsCrypto named_crypto is_live view
unfolding named_crypto crypto
named_crypto-IsCrypto = record {
  parse-string = λ u. refl;
  parse-sign = crypto-IsCrypto.parse-sign;
  jwt_parse_reads = crypto-IsCrypto.jwt_parse_reads;
  generate_lem = crypto-IsCrypto.generate_lem;
}

named_auth : AuthService World
unfolding auth
named_auth = record auth { crypto = named_crypto }

named_auth-IsAuth : IsAuth named_auth view live_keys is_live
unfolding named_auth auth named_crypto crypto
named_auth-IsAuth = record {
  database = auth-IsAuth.database;
  system = auth-IsAuth.system;
  sessions = auth-IsAuth.sessions;
  crypto = named_crypto-IsCrypto;
  generate_reads = auth-IsAuth.generate_reads;
  parse_keeps = auth-IsAuth.parse_keeps;
}

abbrev signed_claims : Claims
signed_claims = record {
  user_id = b'u' ∷ 100 ∷ b'u' ∷ [];
  pseudonym = codes "silent-fox-100";
  is_admin = false;
  expires_at = 1010;
  issued_at = 11;
}

abbrev token : Text
token = spell signed_claims

abbrev authorization : Text
authorization = codes "Bearer " ++ token

registered : World
unfolding register
registered = (register named_auth world).1

only_token : (claims : Claims) → ok (spell claims) ≡ ok token → claims ≡ signed_claims
only_token claims e =
    let same : spell claims ≡ token = cc in
    let known : some claims ≡ some signed_claims =
      sym (read-spell claims) ∙ ap read same ∙ read-spell signed_claims in
    cc

uuid_text : (u : Uuid) → is_empty (trim_space (named_auth.crypto.uuid_string u)) ≡ false
unfolding named_auth named_crypto is_empty trim_space
uuid_text u = refl

registered_run : register named_auth world ≡ (ok (token, codes "silent-fox-100"), registered)
unfolding registered register register_loop register_round settle_round finish_register
    store_session sign ◌>>=◌ reject_if attempt context create named_auth named_crypto auth database
    system redis crypto token_digest hex_encode is_empty map_error
registered_run = refl

register-IsEntered_example :
    (u : User) × (view registered ≡ with_user u (view world))
    × (u.pseudonym ≡ codes "silent-fox-100")
    × (u.is_admin ≡ false)
    × IsEntered
        (session_answer named_auth u.id token registered)
        (stored u.id (codes "silent-fox-100") false [])
        (auth_handler named_auth.redis named_auth.crypto named_auth.secret authorization []
          registered)
unfolding named_auth named_crypto auth crypto registered register register_loop register_round
    settle_round finish_register store_session sign ◌>>=◌ reject_if attempt context create database
    system redis token_digest hex_encode is_empty trim_space map_error split_space equal_fold
register-IsEntered_example =
    register-IsEntered named_auth view live_keys is_live named_auth-IsAuth uuid_text authorization
      (codes "Bearer") token [] registered (codes "silent-fox-100") world registered_run refl refl
      (λ claims e. subst (λ c. is_live c registered ≡ true) (sym (only_token claims e)) refl) refl
