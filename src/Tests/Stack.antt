-- ===== src/Tests/Stack.antt =====
-- A request through the shared middleware, a pseudonym and a health check, at concrete inputs.
use echo_backend.Base.{ℕ, ◌<◌, ◌-◌, ◌≡◌, refl, some, [], ◌∷◌, ◌++◌, if◌then◌else◌, ltb, arith}
use echo_backend.Base.Int.{pos}
use echo_backend.Text.{Text, codes, itoa}
use echo_backend.Errors.{ok, failure}
use echo_backend.Effect.{pure, fail}
use echo_backend.Config.{Config}
use echo_backend.Config.Load.{config_of}
use echo_backend.Handler.Health.{check}
use echo_backend.Pseudonym.{Random, new_random, generate}
use echo_backend.Pseudonym.Drawn.{IsPseudonym, generate-IsPseudonym}
use echo_backend.Router.Shared.{Request, shared}
use echo_backend.Router.Shared.Guarded.{IsGuarded, shared-IsGuarded}
use echo_backend.Tests.Limits.{desk, desk_system, desk_store, desk_crypto}
use echo_backend.Tests.Settings.{complete, five_seconds}

abbrev pub cfg : Config
cfg = config_of complete five_seconds

abbrev posted : Request
posted = record {
  method = codes "GET";
  request_uri = codes "/feed/latest";
  redirect_target = λ host. codes "https://" ++ host ++ codes "/feed/latest";
  headers =
      (codes "X-Forwarded-Proto", codes "https") ∷ (codes "X-Forwarded-For", codes "10.0.0.1") ∷ [];
}

shared-IsGuarded_example :
    IsGuarded cfg posted (shared desk_system desk_store desk_crypto cfg posted desk).0
shared-IsGuarded_example = shared-IsGuarded desk_system desk_store desk_crypto cfg posted desk

-- A source that draws its seed, or the last number when that is out of range.
abbrev capped : ℕ → ℕ → ℕ × ℕ
capped n g = (if ltb g n then g else n - 1, g)

capped_bounded : (n g : ℕ) → 0 < n → (capped n g).0 < n
capped_bounded n g h = ground (arith)

generate-IsPseudonym_example :
    (t : Text) × (r' : Random ℕ) × (generate capped (new_random {G = ℕ} (λ _. 7) (pos 1) (pos 0))
      ≡ (some t, r'))
    × IsPseudonym capped (new_random {G = ℕ} (λ _. 7) (pos 1) (pos 0)) t
    × (r'.adjectives ≡ (new_random {G = ℕ} (λ _. 7) (pos 1) (pos 0)).adjectives)
    × (r'.nouns ≡ (new_random {G = ℕ} (λ _. 7) (pos 1) (pos 0)).nouns)
unfolding new_random
generate-IsPseudonym_example =
    generate-IsPseudonym capped capped_bounded (new_random {G = ℕ} (λ _. 7) (pos 1) (pos 0))
      (omega arith) (omega arith)

first_drawn :
    (generate capped (new_random {G = ℕ} (λ _. 7) (pos 1) (pos 0))).0
    ≡ some (codes "mellow-wave-107")
unfolding generate new_random itoa
first_drawn = refl

-- The database is asked for a connection that it cannot give; Redis is asked all the same.
degraded : (check {W = ℕ} (fail (failure (codes "closed"))) (pure tt) (λ w. (ok tt, 1)) 0).1 ≡ 1
unfolding check
degraded = refl
