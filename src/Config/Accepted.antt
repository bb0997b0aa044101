-- ===== src/Config/Accepted.antt =====
-- What `config.Load` returns, and what an accepted configuration promises.
use echo_backend.Base.{
  ◌≡◌, refl, ap, ◌∙◌, sym, subst, Bool, true, false, All, Option, none, some, List, [], ◌∷◌, ◌++◌,
  if◌then◌else◌,
}
use echo_backend.Text.{Text, codes, is_empty, trim_space, equal_fold, text_eq}
use echo_backend.Errors.{Error, Result, ok}
use echo_backend.Base.Int.{ℤ}
use echo_backend.Config.{
  Config, Env, or_empty, loaded, refused, unless_errors, load, is_production, load_env,
  env_or_default, split_and_trim, trim_each,
}
use echo_backend.Config.Faults.{
  some_text, fault, all_faults, config_faults, server_settings, db_settings, redis_settings,
  jwt_settings, threshold_fault, duration,
}
use echo_backend.Config.Readings.{Collects}
use echo_backend.Config.Load.{config_of, load_config-Collects}

loaded-inj : {c d : Config} → loaded c ≡ loaded d → c ≡ d
loaded-inj h = cc

-- Each variable has at most one fault, as a table of the variables says: missing, empty where that
-- is not allowed, or not a number of its type; the threshold alone has a default. `load` returns
-- the configuration of the values if there is no fault, and otherwise fails with the faults of all
-- the variables, in the table's order.
pub load-config_of :
    (parse_duration : Text → Result ℤ) (env : Env)
    → (config_faults parse_duration env ≡ []
        → load parse_duration env ≡ loaded (config_of env parse_duration))
      × ((e : Error) (errs : List Error)
          → config_faults parse_duration env ≡ e ∷ errs
          → load parse_duration env ≡ refused (e ∷ errs))
unfolding load unless_errors Collects
load-config_of parse_duration env =
    let whole = ap unless_errors (load_config-Collects env parse_duration []) in
    (
      λ none_wrong.
          whole ∙ ap (λ l. unless_errors (ok (config_of env parse_duration), l)) none_wrong,
      λ e errs wrong. whole ∙ ap (λ l. unless_errors (ok (config_of env parse_duration), l)) wrong,
    )

-- What the server relies on.
unfoldable pub IsSafe : Env → Config → Type 0
IsSafe env c =
    (env (codes "JWT_SECRET") ≡ some c.jwt.secret)
    × (is_empty c.jwt.secret ≡ false)
    × (is_production c
        ≡ equal_fold (trim_space (or_empty (env (codes "APP_ENV")))) (codes "production"))
    × All (λ o. is_empty o ≡ false) c.cors.allowed_origins

append_nil_inv : (xs ys : List Error) → xs ++ ys ≡ [] → (xs ≡ []) × (ys ≡ [])
append_nil_inv [] ys h = (refl, h)
append_nil_inv (x ∷ xs) ys h = cc

fourth_nil : (s d r j t : List Error) → s ++ (d ++ (r ++ (j ++ t))) ≡ [] → j ≡ []
fourth_nil s d r j t h =
    let after_redis =
      (append_nil_inv r (j ++ t)
        (append_nil_inv d (r ++ (j ++ t)) (append_nil_inv s (d ++ (r ++ (j ++ t))) h).1).1).1 in
    (append_nil_inv j t after_redis).0

fault_text :
    (key : Text) (v : Option Text)
    → fault key some_text v ≡ []
    → (v ≡ some (or_empty v)) × (is_empty (or_empty v) ≡ false)
unfolding fault is_empty
fault_text key none h = cc
fault_text key (some []) h = cc
fault_text key (some (c ∷ v)) h = (refl, refl)

production_or_not :
    (b : Bool)
    → text_eq (if b then codes "production" else codes "development") (codes "production") ≡ b
unfolding text_eq
production_or_not true = refl
production_or_not false = refl

trim_each-All : (parts : List Text) → All (λ o. is_empty o ≡ false) (trim_each parts)
unfolding trim_each
trim_each-All [] = tt
trim_each-All (part ∷ parts) = go (trim_each-All parts) (is_empty (trim_space part)) refl
  where
    go :
        All (λ o. is_empty o ≡ false) (trim_each parts)
        → (b : Bool) → is_empty (trim_space part) ≡ b
        → All
            (λ o. is_empty o ≡ false)
            (if b then trim_each parts else trim_space part ∷ trim_each parts)
    go rest true e = rest
    go rest false e = (e, rest)

module _ (parse_duration : Text → Result ℤ) (env : Env) where
  config_of-IsSafe :
      config_faults parse_duration env ≡ [] → IsSafe env (config_of env parse_duration)
  unfolding config_faults all_faults config_of load_env is_production split_and_trim IsSafe
  config_of-IsSafe h =
      let jwt_faultless =
        fourth_nil (all_faults env (server_settings parse_duration)) (all_faults env db_settings)
          (all_faults env redis_settings) (all_faults env (jwt_settings parse_duration))
          (threshold_fault
            (env_or_default env (codes "MODERATION_AUTO_HIDE_THRESHOLD") (codes "3")))
          h in
      let secret =
        fault_text (codes "JWT_SECRET") (env (codes "JWT_SECRET"))
          (append_nil_inv (fault (codes "JWT_SECRET") some_text (env (codes "JWT_SECRET")))
            (fault (codes "JWT_TTL") (duration parse_duration) (env (codes "JWT_TTL")) ++ [])
            jwt_faultless).0 in
      (secret.0, secret.1, production_or_not _, trim_each-All _)

  -- The configuration that `load` accepts has the secret that the environment gives, which is not
  -- empty; it is in production if and only if `APP_ENV`, trimmed, is "production" in any case; and
  -- none of its allowed origins is empty.
  pub load-IsSafe : (c : Config) → load parse_duration env ≡ loaded c → IsSafe env c
  load-IsSafe c h = go (config_faults parse_duration env) refl
    where
      go : (l : List Error) → config_faults parse_duration env ≡ l → IsSafe env c
      go [] e =
          subst (IsSafe env) (loaded-inj (sym ((load-config_of parse_duration env).0 e) ∙ h))
            (config_of-IsSafe e)
      go (x ∷ l) e = cc (sym h ∙ (load-config_of parse_duration env).1 x l e)
