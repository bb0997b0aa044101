-- ===== src/Redis.antt =====
-- The Redis server behind go-redis, which services and middleware call: a record of operations on
-- the unknown world, with the laws that the code relies on.
use echo_backend.Base.{◌≡◌, true, Option, none, some}
use echo_backend.Base.Int.{ℤ}
use echo_backend.Text.{Text}
use echo_backend.Errors.{redis_nil, is_error, Result}
use echo_backend.Effect.{M, Ensures}

pub record Redis (W : Type 0) : Type 0 where
  pub get : Text → M W Text
  -- The duration, in nanoseconds, after which the key is gone.
  pub set : Text → Text → ℤ → M W (Unit {0})
  pub del : Text → M W (Unit {0})

-- `keys` tells the value of each live key, and `view` what else the world holds.
module _ {W V : Type 0} (keys : W → Text → Option Text) (view : W → V) where
  -- `get` returns the value of a live key, and `redis.Nil` only for a key that is not live.
  abbrev pub Gets : Text → W → Result Text × W → Type 0
  Gets k w =
      Ensures (λ v w'. (keys w k ≡ some v) × (view w' ≡ view w))
        (λ e w'. (is_error e redis_nil ≡ true → keys w k ≡ none) × (view w' ≡ view w))

  -- A call that succeeds leaves the key with this value.
  abbrev pub Leaves : Text → Option Text → W → Result (Unit {0}) × W → Type 0
  Leaves k o w = Ensures (λ _ w'. (keys w' k ≡ o) × (view w' ≡ view w)) (λ _ w'. view w' ≡ view w)

  pub record IsRedis (redis : Redis W) : Type 0 where
    pub get_lem : (k : Text) (w : W) → Gets k w (redis.get k w)
    pub set_lem : (k v : Text) (ttl : ℤ) (w : W) → Leaves k (some v) w (redis.set k v ttl w)
    pub del_lem : (k : Text) (w : W) → Leaves k none w (redis.del k w)
