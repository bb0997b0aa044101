-- ===== src/Tests/Routes.antt =====
-- The theorems on the middleware, the error responses and the routes, at a concrete request.
use echo_backend.Base.{
  ℕ, ◌≤◌, ◌≡◌, refl, true, false, none, some, List, [], ◌∷◌, ◌++◌, if◌then◌else◌,
}
use echo_backend.Base.Int.{pos}
use echo_backend.Text.{Text, codes, is_empty, trim_space, equal_fold, split_space, text_eq}
use echo_backend.Errors.{wrapped, sentinel, not_found, ok, is_error, sentinel_eq}
use echo_backend.Crypto.{Claims, hex_encode}
use echo_backend.Domain.{open_report, no_action}
use echo_backend.Service.Reports.{session_key}
use echo_backend.Service.Auth.{token_digest, hmac_key}
use echo_backend.Middleware.Auth.{auth_handler, stored}
use echo_backend.Middleware.Auth.Session.{IsJudged, auth_handler-IsJudged}
use echo_backend.Middleware.Auth.Login.{IsEntered, session_answer, auth_handler-admits}
use echo_backend.Handler.Errors.{write_domain_error}
use echo_backend.Handler.Errors.Laws.{told, published, write_domain_error-told}
use echo_backend.Service.Limits.{clamp_limit}
use echo_backend.Handler.Request.{page_limit}
use echo_backend.Handler.Request.Limits.{clamp_limit-page_limit}
use echo_backend.SortedSets.{SortedSets, Command}
use echo_backend.Middleware.RateLimit.{RateLimit}
use echo_backend.Tests.World.{World, view, live_keys}
use echo_backend.Tests.Ciphers.{
  auth, auth-IsAuth, is_live, redis, crypto, spell, redis-IsRedis, crypto-IsCrypto, jwt_parse_keeps,
}

abbrev pub admin_claims : Claims
admin_claims = record {
  user_id = 7 ∷ [];
  pseudonym = codes "rapid-owl-123";
  is_admin = true;
  expires_at = 1000;
  issued_at = 5;
}

abbrev pub admin_token : Text
admin_token = spell admin_claims

-- User 7 is an administrator with a live session, and has a post that user 8 reported.
abbrev pub office : World
unfolding hex_encode text_eq session_key
office = record {
  tables = record {
    users = [];
    posts =
        (record {
          id = 1;
          author_id = 7;
          pseudonym = codes "rapid-owl-123";
          content = codes "hello";
          is_hidden = false;
          reply_count = 0;
          score = pos 0;
          created_at = 3;
        })
        ∷ [];
    replies = [];
    reactions = [];
    reports =
        (record {
          id = 2;
          post_id = 1;
          reporter_id = 8;
          reason = codes "spam";
          status = open_report;
          action = no_action;
          action_note = [];
          reviewed_by = none;
          reviewed_at = none;
          created_at = 4;
        })
        ∷ [];
  };
  keys = λ k. if text_eq k (session_key (7 ∷ [])) then some (hex_encode admin_token) else none;
  clock = 10;
  next_id = 100;
}

abbrev pub authorization : Text
authorization = codes "bearer " ++ admin_token

auth_handler-IsJudged_example :
    IsJudged redis crypto
      (codes "change-me")
      live_keys
      view
      is_live
      authorization
      []
      office
      (auth_handler redis crypto (codes "change-me") authorization [] office)
auth_handler-IsJudged_example =
    auth_handler-IsJudged redis crypto (codes "change-me") live_keys view is_live redis-IsRedis
      crypto-IsCrypto jwt_parse_keeps authorization [] office

split_authorization : split_space authorization ≡ some (codes "bearer", admin_token)
unfolding split_space
split_authorization = refl

auth_handler-admits_example :
    IsEntered
      (session_answer auth 7 admin_token office)
      (stored 7 (codes "rapid-owl-123") true [])
      (auth_handler auth.redis auth.crypto auth.secret authorization [] office)
unfolding auth crypto equal_fold is_empty trim_space session_key text_eq hex_encode token_digest
    hmac_key
auth_handler-admits_example =
    auth_handler-admits auth view live_keys is_live auth-IsAuth 7 (codes "rapid-owl-123") true 1000
      5 admin_token (hex_encode admin_token) authorization (codes "bearer") [] office
      split_authorization refl refl refl refl refl refl refl

write_domain_error-told_example :
    write_domain_error {A = Text} (wrapped (codes "hide post") (sentinel not_found))
    ≡ told not_found (published not_found)
unfolding is_error sentinel_eq
write_domain_error-told_example =
    write_domain_error-told Text (wrapped (codes "hide post") (sentinel not_found)) not_found refl

clamp_limit-page_limit_example :
    ((n : ℕ) × (clamp_limit (page_limit (pos 500)) ≡ pos n) × (1 ≤ n) × (n ≤ 100))
    × (clamp_limit (page_limit (pos 500)) ≡ clamp_limit (pos 500))
clamp_limit-page_limit_example = clamp_limit-page_limit (pos 500)

-- Redis counts one request.
pub counter : SortedSets World
counter = record { exec = λ cs w. (ok (0 ∷ 1 ∷ 1 ∷ 1 ∷ []), w) }

pub counter_reads : (cs : List Command) (w : World) → view (counter.exec cs w).1 ≡ view w
unfolding counter
counter_reads cs w = refl

pub counter_keeps : (cs : List Command) (w : World) → live_keys (counter.exec cs w).1 ≡ live_keys w
unfolding counter
counter_keeps cs w = refl

abbrev ten_a_minute : RateLimit
ten_a_minute = record {
  general_limit = pos 60;
  general_window = pos 60_000_000_000;
  post_create_limit = pos 10;
  post_create_window = pos 60_000_000_000;
}
