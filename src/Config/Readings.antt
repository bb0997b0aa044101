-- ===== src/Config/Readings.antt =====
-- One rule for each way to read a variable: the value, and the errors it adds.
use echo_backend.Base.{
  append_nil, append_assoc, ◌≡◌, refl, sym, ap, ◌∙◌, true, false, Option, none, some, List, [], ◌∷◌,
  ◌++◌, if◌then◌else◌,
}
use echo_backend.Base.Int.{ℤ, pos}
use echo_backend.Text.{Text, is_empty}
use echo_backend.Errors.{Error, Result, ok, err}
use echo_backend.Effect.{◌>>=◌, pure}
use echo_backend.Config.{
  Env, or_empty, Reading, require_value, parsed_or_report, require_env, require_parsed,
}
use echo_backend.Config.Faults.{some_text, any_text, number, fault, parse_fault}

-- A reading that gives the value and adds the faults.
unfoldable pub Collects : {A : Type 0} → Reading A → A → List Error → Type 0
Collects r v faults = (errs : List Error) → r errs ≡ (ok v, errs ++ faults)

pub Collects-pure : {A : Type 0} (v : A) → Collects (pure v) v []
unfolding Collects
Collects-pure v errs = ap (λ l. (ok v, l)) (sym (append_nil errs))

pub Collects-bind :
    {A B : Type 0} (m : Reading A) (v : A) (fs : List Error) (f : A → Reading B) (w : B)
    (gs : List Error)
    → Collects m v fs
    → Collects (f v) w gs
    → Collects (m >>= f) w (fs ++ gs)
unfolding Collects ◌>>=◌
Collects-bind m v fs f w gs first second errs =
    ap (λ x. let (r, errs') = x in elim r [ ok a ↦ f a errs' | err e ↦ (err e, errs') ])
      (first errs)
    ∙ second _
    ∙ ap (λ l. (ok w, l)) (append_assoc errs _ gs)

pub Collects-bind-pure :
    {A B : Type 0} (m : Reading A) (v : A) (fs : List Error) (f : A → B)
    → Collects m v fs
    → Collects (m >>= λ a. pure (f a)) (f v) fs
unfolding Collects ◌>>=◌
Collects-bind-pure m v fs f h errs =
    ap (λ x. let (r, errs') = x in elim r [ ok a ↦ (ok (f a), errs') | err e ↦ (err e, errs') ])
      (h errs)

pub Collects-some_text :
    (env : Env) (key : Text)
    → Collects (require_env env key false) (or_empty (env key)) (fault key some_text (env key))
unfolding Collects require_env require_value fault is_empty
Collects-some_text env key = go (env key)
  where
    go :
        (v : Option Text)
        → Collects (require_value key false v) (or_empty v) (fault key some_text v)
    go none errs = refl
    go (some []) errs = refl
    go (some (c ∷ v)) errs = ap (λ l. (ok (c ∷ v), l)) (sym (append_nil errs))

pub Collects-any_text :
    (env : Env) (key : Text)
    → Collects (require_env env key true) (or_empty (env key)) (fault key any_text (env key))
unfolding Collects require_env require_value fault is_empty
Collects-any_text env key = go (env key)
  where
    go : (v : Option Text) → Collects (require_value key true v) (or_empty v) (fault key any_text v)
    go none errs = refl
    go (some []) errs = ap (λ l. (ok [], l)) (sym (append_nil errs))
    go (some (c ∷ v)) errs = ap (λ l. (ok (c ∷ v), l)) (sym (append_nil errs))

-- What a number is when its text may be faulty.
abbrev pub or_zero : Result ℤ → ℤ
or_zero (ok n) = n
or_zero (err _) = pos 0

unfoldable pub number_of : (Text → Result ℤ) → Text → ℤ
number_of parse [] = pos 0
number_of parse (c ∷ value) = or_zero (parse (c ∷ value))

pub Collects-parsed_or_report :
    (kind value : Text) (r : Result ℤ)
    → Collects (parsed_or_report kind value r) (or_zero r) (parse_fault kind value r)
unfolding Collects parsed_or_report
Collects-parsed_or_report kind value (ok n) errs = ap (λ l. (ok n, l)) (sym (append_nil errs))
Collects-parsed_or_report kind value (err e) errs = refl

pub Collects-number :
    (env : Env) (kind : Text) (parse : Text → Result ℤ) (key : Text)
    → Collects
        (require_parsed env kind parse key false)
        (number_of parse (or_empty (env key)))
        (fault key (number kind parse) (env key))
unfolding Collects require_parsed require_env ◌>>=◌ require_value fault is_empty number_of
Collects-number env kind parse key = go (env key)
  where
    go :
        (v : Option Text)
        → Collects
            (require_value key false v >>= λ value.
              if is_empty value then pure (pos 0) else parsed_or_report kind value (parse value))
            (number_of parse (or_empty v))
            (fault key (number kind parse) v)
    go none errs = refl
    go (some []) errs = refl
    go (some (c ∷ v)) errs = Collects-parsed_or_report kind (c ∷ v) (parse (c ∷ v)) errs
