-- ===== src/Middleware/RateLimit/Reads.antt =====
-- The limits of internal/middleware/ratelimit.go leave the rows and the stored values alone.
use echo_backend.Base.{ℕ, Bool-cases, ◌≡◌, ◌∙◌, refl, inl, inr, List}
use echo_backend.Base.Int.{ℤ, pos, ltb_ℤ}
use echo_backend.Text.{Text, codes}
use echo_backend.Errors.{Result, ok, err}
use echo_backend.Effect.Rules.{bind, returned, leaves, left_with}
use echo_backend.Crypto.{Crypto}
use echo_backend.System.{System, IsSystem}
use echo_backend.SortedSets.{SortedSets, Command}
use echo_backend.Middleware.Gin.{Context, Verdict, next, abort}
use echo_backend.Middleware.Headers.{Headers}
use echo_backend.Middleware.RateLimit.{
  RateLimit, count_request, settle_limit, limit_key, general, post_create,
}

module _ {W V : Type 0} (sys : System W) (store : SortedSets W) (crypto : Crypto W) (view : W → V)
    (s : IsSystem view sys)
    (exec_reads : (cs : List Command) (w : W) → view (store.exec cs w).1 ≡ view w) where
  pub count_request_reads :
      (key : Text) (window : ℤ) (w : W) → view (count_request sys store key window w).1 ≡ view w
  unfolding count_request
  count_request_reads key window w =
      left_with (λ w'. view w' ≡ view w) _
        (bind _ _ (λ _ w'. view w' ≡ view w) _ _ w (returned _ _ _ _ (s.now_reads w))
          λ now w₁ h₁.
            bind _ _ (λ _ w'. view w' ≡ view w) _ _ w₁ (returned _ _ _ _ (s.now_reads w₁ ∙ h₁))
              λ stamp w₂ h₂.
                bind _ _ (λ _ w'. view w' ≡ view w) _ _ w₂
                  (leaves (λ w'. view w' ≡ view w) _ (exec_reads _ w₂ ∙ h₂))
                  λ counts w₃ h₃. returned _ _ _ _ h₃)

  -- A request that is let through keeps its values.
  abbrev pub IsLet : Context → W → (Verdict × Headers) × W → Type 0
  IsLet c w ((next c', _), w') = (c' ≡ c) × (view w' ≡ view w)
  IsLet c w ((abort _ _ _, _), w') = view w' ≡ view w

  settle_limit-IsLet :
      (limit window : ℤ) (response : Headers) (c : Context) (w : W) (x : Result ℕ × W)
      → view x.1 ≡ view w
      → IsLet c w (settle_limit sys store limit window response c x)
  unfolding settle_limit
  settle_limit-IsLet limit window response c w (err _, w') same = same
  settle_limit-IsLet limit window response c w (ok n, w') same =
      elim (Bool-cases (ltb_ℤ limit (pos n))) [
        | inl over ↦ rw over same
        | inr room ↦ rw room (refl, same)
      ]

  module _ (limits : RateLimit) (authorization : Text) (response : Headers) (c : Context)
      (w : W) where
    pub post_create-IsLet :
        IsLet c w (post_create sys store crypto limits authorization response c w)
    unfolding post_create
    post_create-IsLet =
        settle_limit-IsLet limits.post_create_limit limits.post_create_window response c w
          (count_request sys store (limit_key crypto (codes "posts") authorization)
            limits.post_create_window w)
          (count_request_reads _ limits.post_create_window w)

    pub general-IsLet : IsLet c w (general sys store crypto limits authorization response c w)
    unfolding general
    general-IsLet =
        settle_limit-IsLet limits.general_limit limits.general_window response c w
          (count_request sys store (limit_key crypto (codes "general") authorization)
            limits.general_window w)
          (count_request_reads _ limits.general_window w)

-- The headers so far decide nothing.
settle_limit-verdict :
    {W : Type 0} (sys : System W) (store : SortedSets W) (limit window : ℤ) (h h' : Headers)
    (c : Context) (x : Result ℕ × W)
    → ((settle_limit sys store limit window h c x).0.0
        ≡ (settle_limit sys store limit window h' c x).0.0)
      × ((settle_limit sys store limit window h c x).1
          ≡ (settle_limit sys store limit window h' c x).1)
unfolding settle_limit
settle_limit-verdict sys store limit window h h' c (err _, w) = (refl, refl)
settle_limit-verdict sys store limit window h h' c (ok n, w) =
    elim (Bool-cases (ltb_ℤ limit (pos n))) [
      | inl over ↦ rw over (refl, refl)
      | inr room ↦ rw room (refl, refl)
    ]

pub post_create-verdict :
    {W : Type 0} (sys : System W) (store : SortedSets W) (crypto : Crypto W) (limits : RateLimit)
    (authorization : Text) (h h' : Headers) (c : Context) (w : W)
    → ((post_create sys store crypto limits authorization h c w).0.0
        ≡ (post_create sys store crypto limits authorization h' c w).0.0)
      × ((post_create sys store crypto limits authorization h c w).1
          ≡ (post_create sys store crypto limits authorization h' c w).1)
unfolding post_create
post_create-verdict sys store crypto limits authorization h h' c w =
    settle_limit-verdict sys store limits.post_create_limit limits.post_create_window h h' c (
      count_request sys store (limit_key crypto (codes "posts") authorization)
        limits.post_create_window w)
