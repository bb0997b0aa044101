-- ===== src/Middleware/RateLimit/Served.antt =====
-- internal/middleware/ratelimit.go over any sequence of requests: how many pass in a window.
use echo_backend.Base.{
  ℕ, suc, ◌≤◌, ◌≡◌, ◌∙◌, ap, Bool-cases, false, ◌⊎◌, inl, inr, List, [], ◌∷◌, arith, length, count,
}
use echo_backend.Base.Int.{ℤ, pos, pos_part, ltb_ℤ, ◌+ℤ◌}
use echo_backend.Text.{Text, itoa}
use echo_backend.Errors.{Result, ok, err}
use echo_backend.Effect.{Ensures, pure, ◌>>=◌}
use echo_backend.Effect.Rules.{bind, returned, ended, Ensures-mono}
use echo_backend.Crypto.{Crypto}
use echo_backend.Domain.{Time}
use echo_backend.System.{System}
use echo_backend.SortedSets.{SortedSets, Sets, Entry, IsSortedSets}
use echo_backend.Middleware.Gin.{Context, Verdict, next, abort}
use echo_backend.Middleware.Headers.{Headers}
use echo_backend.Middleware.RateLimit.{
  unix_milli, unix_nano, milliseconds, limit_key, count_request, settle_limit, limit_handler, third,
}
use echo_backend.Middleware.RateLimit.Window.{
  live, lives, slide, queued, queued-slide, IsFresh, unix_milli_mono, length-slide, lives-slide,
}

-- A read of the clock tells a time between that before and that after, and leaves the sets alone.
pub record IsClock {W : Type 0} (sys : System W) (sets : W → Sets) (clock : W → Time) : Type 0 where
  pub now_later : (w : W) → clock w ≤ (sys.now w).0
  pub now_sooner : (w : W) → (sys.now w).0 ≤ clock (sys.now w).1
  pub now_sets : (w : W) → sets (sys.now w).1 ≡ sets w

-- The times of the requests that passed, in milliseconds, with this one if it passes.
abbrev pub logged : Verdict → ℕ → List ℕ → List ℕ
logged (next _) t log = t ∷ log
logged (abort _ _ _) t log = log

-- No request passed when its window had as many as the limit already.
abbrev pub IsLimited : ℕ → ℤ → List ℕ → Type 0
IsLimited width limit [] = Unit
IsLimited width limit (t ∷ log) =
    (suc (count (live width t) log) ≤ pos_part limit) × IsLimited width limit log

module _ {W : Type 0} (sys : System W) (store : SortedSets W) (crypto : Crypto W) (sets : W → Sets)
    (clock : W → Time) (scope authorization : Text) (limit window : ℤ) where
  -- The subject's set, and what a request at this world draws from the clock.
  abbrev entries_of : W → List Entry
  entries_of w = sets w (limit_key crypto scope authorization)

  abbrev pub drawn_millis : W → ℕ
  drawn_millis w = unix_milli (sys.now w).0

  abbrev pub drawn_member : W → Text
  drawn_member w = itoa (pos (unix_nano (sys.now (sys.now w).1).0))

  -- A world that the subject's requests lead to, with the times of those that passed, the last
  -- first. Between them anything may happen that keeps the entries of the subject's set that are in
  -- a window from then on: requests of others, and the expiry of a key whose entries are too old. A
  -- request's member, its time in nanoseconds, is not in the set.
  pub data Served : W → List ℕ → Type 0 where
    start : (w : W) → Served w []
    meanwhile :
        (w w' : W) (log : List ℕ)
        → Served w log
        → clock w ≤ clock w'
        → ((now : ℕ)
            → unix_milli (clock w') ≤ now
            → lives (milliseconds window) now (entries_of w)
              ≤ lives (milliseconds window) now (entries_of w'))
        → Served w' log
    request :
        (w : W) (log : List ℕ) (h : Headers) (c : Context)
        → Served w log
        → IsFresh (drawn_member w) (entries_of w)
        → Served (limit_handler sys store crypto scope limit window authorization h c w).1 (
            logged
              (limit_handler sys store crypto scope limit window authorization h c w).0.0
              (drawn_millis w)
              log)

  -- Each request that passed stands in the set for as long as it is in a window.
  abbrev IsKept : W → List ℕ → Type 0
  IsKept w log =
      ((now : ℕ)
        → unix_milli (clock w) ≤ now
        → count (live (milliseconds window) now) log
          ≤ lives (milliseconds window) now (entries_of w))
      × IsLimited (milliseconds window) limit log

  module _ (k : IsClock sys sets clock) (s : IsSortedSets store sets clock) where
    -- The subject's set after the pipeline of a request.
    abbrev slid : W → List Entry
    slid w = slide (drawn_millis w) (milliseconds window) (drawn_member w) (entries_of w)

    -- The clock goes on, past the request.
    abbrev Passes : W → W → Type 0
    Passes w w' = (clock w ≤ clock w') × ((sys.now w).0 ≤ clock w')

    count_request_lem :
        (w : W)
        → Ensures
            (λ n w'. (n ≡ length (slid w)) × (entries_of w' ≡ slid w) × Passes w w')
            (λ _ w'. ((entries_of w' ≡ entries_of w) ⊎ (entries_of w' ≡ slid w)) × Passes w w')
            (count_request sys store (limit_key crypto scope authorization) window w)
    unfolding count_request ◌>>=◌
    count_request_lem w =
        let key = limit_key crypto scope authorization in
        let w₁ = (sys.now w).1 in
        let w₂ = (sys.now w₁).1 in
        let cs =
          queued key (drawn_millis w) (milliseconds window) (drawn_member w)
            (window +ℤ pos 5_000_000_000) in
        let same : sets w₂ ≡ sets w = k.now_sets w₁ ∙ k.now_sets w in
        let passes : Passes w (store.exec cs w₂).1 = omega (
          arith,
          k.now_later w,
          k.now_sooner w,
          k.now_later w₁,
          k.now_sooner w₁,
          s.exec_clock cs w₂,
        ) in
        let (left, counted) =
          queued-slide key (drawn_millis w) (milliseconds window) (drawn_member w)
            (window +ℤ pos 5_000_000_000) (sets w) in
        bind _ _ (λ ns w'. (third ns ≡ length (slid w)) × (entries_of w' ≡ slid w) × Passes w w')
          (store.exec cs) (λ ns. pure (third ns)) w₂
          (Ensures-mono _ _ _ _ _
            (ended (Passes w) _ _ (store.exec cs w₂) passes (s.exec_lem cs w₂))
            (λ ns w' q. (
              ap third (rw same at q.0.0) ∙ counted,
              ap (λ f. f key) (rw same at q.0.1) ∙ left,
              q.1,
            ))
            (λ e w' q. (
              elim q.0 [
                | inl kept ↦ inl (ap (λ f. f key) (kept ∙ same))
                | inr ran ↦ inr (ap (λ f. f key) (rw same at ran) ∙ left)
              ],
              q.1,
            )))
          λ ns w' q. returned _ _ _ _ q

    -- A set that was left alone or that took the request keeps what is in a window.
    kept_entries :
        (w w' : W) (now : ℕ)
        → IsFresh (drawn_member w) (entries_of w)
        → Passes w w'
        → (entries_of w' ≡ entries_of w) ⊎ (entries_of w' ≡ slid w)
        → unix_milli (clock w') ≤ now
        → lives (milliseconds window) now (entries_of w)
          ≤ lives (milliseconds window) now (entries_of w')
    kept_entries w w' now fresh passes (inl same) later = rw same (omega arith)
    kept_entries w w' now fresh passes (inr ran) later =
        let drawn_before : drawn_millis w ≤ now =
          omega (arith, later, unix_milli_mono (sys.now w).0 (clock w') passes.1) in
        let grown =
          lives-slide (drawn_millis w) (milliseconds window) now (drawn_member w) (entries_of w)
            fresh drawn_before in
        ground (arith, ap (lives (milliseconds window) now) ran, grown)

    -- What was kept stays kept over a request that does not pass.
    refused-IsKept :
        (w w' : W) (log : List ℕ)
        → IsFresh (drawn_member w) (entries_of w)
        → Passes w w'
        → (entries_of w' ≡ entries_of w) ⊎ (entries_of w' ≡ slid w)
        → IsKept w log
        → IsKept w' log
    refused-IsKept w w' log fresh passes change kept = (
      λ now later. omega (
        arith,
        kept_entries w w' now fresh passes change later,
        kept.0 now (omega (arith, later, unix_milli_mono (clock w) (clock w') passes.0)),
      ),
      kept.1,
    )

    -- A request that passes has room in its window.
    passed-IsKept :
        (n : ℕ) (w w' : W) (log : List ℕ)
        → IsFresh (drawn_member w) (entries_of w)
        → Passes w w'
        → n ≡ length (slid w)
        → entries_of w' ≡ slid w
        → ltb_ℤ limit (pos n) ≡ false
        → IsKept w log
        → IsKept w' (drawn_millis w ∷ log)
    passed-IsKept n w w' log fresh passes counted left room kept =
        let width = milliseconds window in
        let now_drawn : unix_milli (clock w) ≤ drawn_millis w =
          unix_milli_mono (clock w) (sys.now w).0 (k.now_later w) in
        let all = length-slide (drawn_millis w) width (drawn_member w) (entries_of w) fresh in
        (
          λ now later.
              let drawn_before : drawn_millis w ≤ now =
                omega (arith, later, unix_milli_mono (sys.now w).0 (clock w') passes.1) in
              let grown =
                lives-slide (drawn_millis w) width now (drawn_member w) (entries_of w) fresh
                  drawn_before in
              let before : count (live width now) log ≤ lives width now (entries_of w) =
                kept.0 now (omega (arith, later, unix_milli_mono (clock w) (clock w') passes.0)) in
              rw (ap (lives width now) left ∙ grown) (ground (arith, before)),
          (ground (arith, kept.0 (drawn_millis w) now_drawn, counted, all, room), kept.1),
        )

    settled :
        (w : W) (log : List ℕ) (h : Headers) (c : Context) (x : Result ℕ × W)
        → IsFresh (drawn_member w) (entries_of w)
        → IsKept w log
        → Ensures
            (λ n w'. (n ≡ length (slid w)) × (entries_of w' ≡ slid w) × Passes w w')
            (λ _ w'. ((entries_of w' ≡ entries_of w) ⊎ (entries_of w' ≡ slid w)) × Passes w w')
            x
        → IsKept
            (settle_limit sys store limit window h c x).1
            (logged (settle_limit sys store limit window h c x).0.0 (drawn_millis w) log)
    unfolding Ensures settle_limit
    settled w log h c (ok n, w') fresh kept (counted, left, passes) =
        elim (Bool-cases (ltb_ℤ limit (pos n))) [
          | inl over ↦ rw over (refused-IsKept w w' log fresh passes (inr left) kept)
          | inr room ↦ rw room (passed-IsKept n w w' log fresh passes counted left room kept)
        ]
    settled w log h c (err _, w') fresh kept (change, passes) =
        refused-IsKept w w' log fresh passes change kept

    request-IsKept :
        (w : W) (log : List ℕ) (h : Headers) (c : Context)
        → IsFresh (drawn_member w) (entries_of w)
        → IsKept w log
        → IsKept (limit_handler sys store crypto scope limit window authorization h c w).1 (
            logged
              (limit_handler sys store crypto scope limit window authorization h c w).0.0
              (drawn_millis w)
              log)
    unfolding limit_handler settle_limit
    request-IsKept w log h c fresh kept =
        settled w log h c (count_request sys store (limit_key crypto scope authorization) window w)
          fresh kept (count_request_lem w)

    -- Over any sequence of requests of one subject, by a clock that does not go back, none passes
    -- when as many as the limit have passed in the window that ends with it. Between them the
    -- entries that are in a window stay in the set, and each request brings a new member.
    pub Served-IsLimited :
        (w : W) (log : List ℕ) → Served w log → IsLimited (milliseconds window) limit log
    Served-IsLimited w log served = (go w log served).1
      where
        go : (w : W) (log : List ℕ) → Served w log → IsKept w log
        go w log (start _) = (λ now h. omega arith, tt)
        go w' log (meanwhile w _ _ before later kept) =
            let ih = go w log before in
            (
              λ now h. omega (
                arith,
                kept now h,
                ih.0 now (omega (arith, h, unix_milli_mono (clock w) (clock w') later)),
              ),
              ih.1,
            )
        go _ _ (request w log h c before fresh) = request-IsKept w log h c fresh (go w log before)
