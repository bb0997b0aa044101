-- ===== src/Tests/Sessions.antt =====
-- The theorems on sessions at a concrete world.
use echo_backend.Base.{◌≡◌, refl, ◌⊎◌, false, none, [], ◌∷◌}
use echo_backend.Text.{Text, codes, is_empty, trim_space}
use echo_backend.Errors.{ok}
use echo_backend.Effect.{Ensures, ◌>>=◌, reject_if, attempt, context, map_error}
use echo_backend.Crypto.{Claims, hex_encode}
use echo_backend.Repository.Users.{create, get_by_id, update_token}
use echo_backend.Domain.{Uuid, Time, User}
use echo_backend.Repository.Users.Rows.{with_user}
use echo_backend.Service.Auth.{
  add_duration, register, refresh, register_loop, register_round, settle_round, finish_register,
  store_session, sign, check_token, rotate, parse, token_digest,
}
use echo_backend.Service.Reports.{session_key}
use echo_backend.Service.Auth.Session.{IsSigned, Answers, HasSession, new_user}
use echo_backend.Service.Auth.Register.{register-session}
use echo_backend.Service.Auth.Refresh.{IsCurrent, Rotated, HalfRotated, refresh-rotates}
use echo_backend.Tests.World.{World, view, live_keys, database, system}
use echo_backend.Tests.Ciphers.{auth, auth-IsAuth, is_live, redis, crypto, spell}

abbrev pub world : World
world = record {
  tables = record { users = []; posts = []; replies = []; reactions = []; reports = [] };
  keys = λ _. none;
  clock = 10;
  next_id = 100;
}

register-session_example :
    Ensures
      (λ r w'.
        (user_id : Uuid) × (now : Time) × (hash : Text) × IsSigned auth user_id r.1 false
          (add_duration now auth.ttl)
          r.0
        × Answers auth hash r.0
        × (is_empty r.0 ≡ false)
        × (view w'
            ≡ with_user (new_user user_id r.1 hash now (add_duration now auth.ttl)) (view world))
        × HasSession auth live_keys user_id hash w')
      (λ _ w'.
        (view w' ≡ view world)
        ⊎ ((u : User) × (u.is_admin ≡ false) × (view w' ≡ with_user u (view world))))
      (register auth world)
register-session_example = register-session auth view live_keys is_live auth-IsAuth world

-- The claims of the token that this registration signs, and of the one that a refresh signs.
abbrev signed_claims : Time → Time → Claims
signed_claims expires_at issued_at = record {
  user_id = 100 ∷ [];
  pseudonym = codes "silent-fox-100";
  is_admin = false;
  expires_at = expires_at;
  issued_at = issued_at;
}

abbrev token : Text
token = spell (signed_claims 1010 11)

registered : World
unfolding register
registered = (register auth world).1

register-token : (register auth world).0 ≡ ok (token, codes "silent-fox-100")
unfolding register register_loop register_round settle_round finish_register store_session sign
    ◌>>=◌ reject_if attempt context create auth database system redis crypto token_digest hex_encode
    is_empty map_error
register-token = refl

refresh-token : (refresh auth token registered).0 ≡ ok (spell (signed_claims 1013 14))
unfolding refresh check_token rotate parse registered register_loop register_round settle_round
    finish_register store_session sign ◌>>=◌ reject_if attempt context map_error create get_by_id
    update_token auth database system redis crypto token_digest hex_encode is_empty trim_space
    session_key
refresh-token = refl

refresh-rotates_example :
    Ensures
      (λ new_token w'.
        (user : User) × IsCurrent auth view live_keys user token registered
        × Rotated auth view live_keys user registered new_token w')
      (λ _ w'. (view w' ≡ view registered) ⊎ ((user : User) × HalfRotated view user registered w'))
      (refresh auth token registered)
refresh-rotates_example = refresh-rotates auth view live_keys is_live auth-IsAuth token registered
