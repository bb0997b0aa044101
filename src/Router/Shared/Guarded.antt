-- ===== src/Router/Shared/Guarded.antt =====
-- What holds of a request that reaches its route, and of every answer before.
use echo_backend.Base.{
  ◌≡◌, ◌∙◌, ℕ, refl, sym, ap, subst, Bool, Bool-cases, true, false, not, ◌&&◌, Option, none, some,
  [], inl, inr, if◌then◌else◌,
}
use echo_backend.Base.Int.{ℤ, pos, ltb_ℤ}
use echo_backend.Text.{Text, codes, text_eq}
use echo_backend.Errors.{Result, ok, err}
use echo_backend.Crypto.{Crypto}
use echo_backend.System.{System}
use echo_backend.SortedSets.{SortedSets}
use echo_backend.Config.{Config, is_production}
use echo_backend.Middleware.Gin.{Context, Verdict, next, abort, get, text_value}
use echo_backend.Middleware.Headers.{Headers, header, ip_headers, has_text, no_ip}
use echo_backend.Middleware.Headers.Laws.{no_ip-strip}
use echo_backend.Middleware.Security.{is_https, join_host_port}
use echo_backend.Middleware.Security.Redirect.{IsSecured, security-IsSecured}
use echo_backend.Middleware.Secured.{
  put-IsSecured, tor-IsSecured, cors_handler-IsSecured, cors_handler-ended,
}
use echo_backend.Middleware.RateLimit.{count_request, settle_limit, limit_key, general}
use echo_backend.Router.Shared.{
  Request, Answer, crashed, redirected, limited, preflight, handled, rate_limits, after_cors,
  after_limit, after_security, after_no_ip, shared,
}

-- What holds of each answer to a request.
unfoldable pub IsGuarded : Config → Request → Answer → Type 0
IsGuarded cfg r crashed = ⊥
IsGuarded cfg r (redirected target response) =
    IsSecured response
    × (is_production cfg ≡ true)
    × (target ≡ r.redirect_target (join_host_port cfg.server.host cfg.server.port))
    × (is_https (header r.headers (codes "X-Forwarded-Proto")) ≡ false)
IsGuarded cfg r (limited _ _ _ response) = IsSecured response
IsGuarded cfg r (preflight response) = IsSecured response × (r.method ≡ codes "OPTIONS")
IsGuarded cfg r (handled headers c response) =
    IsSecured response
    × (is_production cfg ≡ true → is_https (header r.headers (codes "X-Forwarded-Proto")) ≡ true)
    × ((name : Text)
        → header headers name ≡ (if has_text name ip_headers then [] else header r.headers name))
    × (get c (codes "client_ip") ≡ some (text_value []))

target_only :
    (production https : Bool) (t target : Text)
    → some target ≡ (if production && not https then some t else none)
    → (production ≡ true) × (target ≡ t) × (https ≡ false)
target_only true true t target e = cc
target_only true false t target e = (refl, cc, refl)
target_only false https t target e = cc

no_target :
    (production https : Bool) (t : Text)
    → none ≡ (if production && not https then some t else none)
    → production ≡ true
    → https ≡ true
no_target true true t e live = refl
no_target true false t e live = cc
no_target false https t e live = cc

same_headers :
    {h h' : Headers} {c c' : Context}
    → ◌≡◌ {A = Option (Headers × Context)} (some (h, c)) (some (h', c'))
    → h ≡ h'
same_headers e = cc

same_values :
    {h h' : Headers} {c c' : Context}
    → ◌≡◌ {A = Option (Headers × Context)} (some (h, c)) (some (h', c'))
    → c ≡ c'
same_values e = cc

module _ {W : Type 0} (sys : System W) (store : SortedSets W) (crypto : Crypto W) (cfg : Config)
    (r : Request) where
  abbrev IsClean : Headers → Context → Type 0
  IsClean headers c =
      ((name : Text)
        → header headers name ≡ (if has_text name ip_headers then [] else header r.headers name))
      × (get c (codes "client_ip") ≡ some (text_value []))

  abbrev IsHttps : Type 0
  IsHttps =
      is_production cfg ≡ true → is_https (header r.headers (codes "X-Forwarded-Proto")) ≡ true

  after_cors-IsGuarded :
      (headers : Headers) (c : Context) (x : Headers × Bool)
      → IsSecured x.0
      → (x.1 ≡ true → r.method ≡ codes "OPTIONS")
      → IsHttps
      → IsClean headers c
      → IsGuarded cfg r (after_cors headers c x)
  unfolding IsGuarded
  after_cors-IsGuarded headers c (response, true) s ended https clean = (s, ended refl)
  after_cors-IsGuarded headers c (response, false) s ended https clean =
      (s, https, clean.0, clean.1)

  -- The limit passes the values on, and adds to the headers of a refusal at most.
  abbrev IsPassed : Context → (Verdict × Headers) × W → Type 0
  IsPassed c x = IsSecured x.0.1 × ((c' : Context) → x.0.0 ≡ next c' → c' ≡ c)

  settle_limit-IsPassed :
      (limit window : ℤ) (h : Headers) (c : Context) (x : Result ℕ × W)
      → IsSecured h
      → IsPassed c (settle_limit sys store limit window h c x)
  unfolding settle_limit text_eq
  settle_limit-IsPassed limit window h c (err _, w) s = (s, λ c' e. cc)
  settle_limit-IsPassed limit window h c (ok n, w) s = elim (Bool-cases (ltb_ℤ limit (pos n))) [
    | inl over ↦ rw over (put-IsSecured _ _ h (refl, refl, refl, refl, refl) s, λ c' e. cc)
    | inr room ↦ rw room (s, λ c' e. cc)
  ]

  after_limit-IsGuarded :
      (headers : Headers) (c : Context) (x : (Verdict × Headers) × W)
      → IsPassed c x
      → IsHttps
      → IsClean headers c
      → IsGuarded cfg r (after_limit sys store crypto cfg r headers x).0
  unfolding after_limit IsGuarded
  after_limit-IsGuarded headers c ((abort _ _ _, response), w) passed https clean = passed.0
  after_limit-IsGuarded headers c ((next c', response), w) passed https clean =
      after_cors-IsGuarded headers c' _ (cors_handler-IsSecured _ _ _ response passed.0)
        (cors_handler-ended _ _ _ _) https (subst (IsClean headers) (sym (passed.1 c' refl)) clean)

  general-IsPassed :
      (authorization : Text) (h : Headers) (c : Context) (w : W)
      → IsSecured h
      → IsPassed c (general sys store crypto (rate_limits cfg) authorization h c w)
  unfolding general
  general-IsPassed authorization h c w s =
      settle_limit-IsPassed (rate_limits cfg).general_limit (rate_limits cfg).general_window h c
        (count_request sys store (limit_key crypto (codes "general") authorization)
          (rate_limits cfg).general_window w)
        s

  after_security-IsGuarded :
      (headers : Headers) (c : Context) (x : Headers × Option Text) (w : W)
      → IsSecured x.0
      → x.1 ≡ (
          if is_production cfg && not (is_https (header headers (codes "X-Forwarded-Proto")))
          then some (r.redirect_target (join_host_port cfg.server.host cfg.server.port))
          else none)
      → IsClean headers c
      → IsGuarded cfg r (after_security sys store crypto cfg r headers c x w).0
  unfolding after_security IsGuarded has_text text_eq
  after_security-IsGuarded headers c (response, some target) w s aim clean =
      let (live, same, plain) = target_only _ _ _ _ aim in
      (s, live, same, ap is_https (sym (clean.0 (codes "X-Forwarded-Proto"))) ∙ plain)
  after_security-IsGuarded headers c (response, none) w s aim clean =
      after_limit-IsGuarded headers c _ (general-IsPassed _ _ c w (tor-IsSecured _ _ response s))
        (λ live. ap is_https (sym (clean.0 (codes "X-Forwarded-Proto"))) ∙ no_target _ _ _ aim live)
        clean

  after_no_ip-IsGuarded :
      (x : Option (Headers × Context)) (w : W)
      → no_ip (not (is_production cfg)) r.headers [] ≡ x
      → IsGuarded cfg r (after_no_ip sys store crypto cfg r x w).0
  unfolding after_no_ip IsGuarded get text_eq
  after_no_ip-IsGuarded none w e =
      let (_, passes, _) = no_ip-strip (not (is_production cfg)) r.headers [] [] in
      cc (sym e ∙ passes)
  after_no_ip-IsGuarded (some (headers, c)) w e =
      let secured =
        security-IsSecured (is_production cfg) (header headers (codes "X-Forwarded-Proto"))
          (r.redirect_target (join_host_port cfg.server.host cfg.server.port)) [] in
      after_security-IsGuarded headers c _ w secured.0 secured.1 (
        λ name.
            (let (stripped, passes, kept) =
                no_ip-strip (not (is_production cfg)) r.headers [] name in
              ap (λ h. header h name) (same_headers (sym e ∙ passes)) ∙ kept),
        (let (stripped, passes, _) = no_ip-strip (not (is_production cfg)) r.headers [] [] in
            ap (λ d. get d (codes "client_ip")) (same_values (sym e ∙ passes))),
      )

  -- The shared middleware never panics. Every answer has the five security headers. A request is
  -- redirected only in production and without `https`, to the configured address, and ends with a preflight only if its
  -- method is OPTIONS. A request that reaches its route came with `https` if in production, and
  -- its handlers find no header that names the client's address, every other header as it was
  -- sent, and an empty `client_ip`.
  pub shared-IsGuarded : (w : W) → IsGuarded cfg r (shared sys store crypto cfg r w).0
  unfolding shared
  shared-IsGuarded w = after_no_ip-IsGuarded (no_ip (not (is_production cfg)) r.headers []) w refl
