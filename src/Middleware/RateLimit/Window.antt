-- ===== src/Middleware/RateLimit/Window.antt =====
-- internal/middleware/ratelimit.go: what the four queued commands do to a window of requests.
use echo_backend.Base.{
  ℕ, suc, ◌+◌, ◌≤◌, ◌≡◌, ◌∙◌, refl, ap, Bool, Bool-cases, false, not, inl, inr, List, [], ◌∷◌, ltb,
  arith, select, count, length, All,
}
use echo_backend.Base.Int.{ℤ, pos, sub_ℕ, leb_ℤ}
use echo_backend.Text.{Text, text_eq}
use echo_backend.Text.Laws.{text_eq_refl}
use echo_backend.Domain.{Time}
use echo_backend.SortedSets.{
  Entry, Command, Sets, with_entry, above, after_all, replies, z_rem_range_by_score, z_add, z_card,
  expire,
}
use echo_backend.Middleware.RateLimit.{unix_milli, third}

-- A request at `score` is in the window of `width` milliseconds that ends at `now`.
abbrev pub live : ℕ → ℕ → ℕ → Bool
live width now score = ltb now (score + width)

abbrev pub lives : ℕ → ℕ → List Entry → ℕ
lives width now entries = count (λ e. live width now e.0) entries

abbrev pub queued : Text → ℕ → ℕ → Text → ℤ → List Command
queued key now width member ttl =
    z_rem_range_by_score key (sub_ℕ now width)
    ∷ z_add key now member
    ∷ z_card key
    ∷ expire key ttl
    ∷ []

-- The set after the pipeline.
abbrev pub slide : ℕ → ℕ → Text → List Entry → List Entry
slide now width member entries = with_entry now member (above (sub_ℕ now width) entries)

pub queued-slide :
    (key : Text) (now width : ℕ) (member : Text) (ttl : ℤ) (sets : Sets)
    → (after_all (queued key now width member ttl) sets key ≡ slide now width member (sets key))
      × (third (replies (queued key now width member ttl) sets)
          ≡ length (slide now width member (sets key)))
queued-slide key now width member ttl sets = rw (text_eq_refl key) (refl, refl)

-- No entry has this member.
abbrev pub IsFresh : Text → List Entry → Type 0
IsFresh member entries = All (λ e. text_eq e.1 member ≡ false) entries

stale : (now width score : ℕ) → leb_ℤ (pos score) (sub_ℕ now width) ≡ not (live width now score)
stale now width score = ground arith

pub unix_milli_mono : (a b : Time) → a ≤ b → unix_milli a ≤ unix_milli b
unfolding unix_milli
unix_milli_mono a b h = omega arith

-- The entries that the pipeline drops are in no later window.
lives-above :
    (width now later : ℕ) (entries : List Entry)
    → now ≤ later
    → lives width later (above (sub_ℕ now width) entries) ≡ lives width later entries
lives-above width now later [] h = refl
lives-above width now later (e ∷ entries) h =
    ground (arith, lives-above width now later entries h, stale now width e.0)

-- What is left fits the window that ends now.
length-above :
    (width now : ℕ) (entries : List Entry)
    → length (above (sub_ℕ now width) entries) ≡ lives width now entries
length-above width now [] = refl
length-above width now (e ∷ entries) =
    ground (arith, length-above width now entries, stale now width e.0)

select-fresh :
    (member : Text) (entries : List Entry)
    → IsFresh member entries
    → select (λ e. not (text_eq e.1 member)) entries ≡ entries
select-fresh member [] h = refl
select-fresh member (e ∷ entries) h = rw h.0 (ap (λ es. e ∷ es) (select-fresh member entries h.1))

IsFresh-above :
    (max : ℤ) (member : Text) (entries : List Entry)
    → IsFresh member entries
    → IsFresh member (above max entries)
IsFresh-above max member [] h = tt
IsFresh-above max member (e ∷ entries) h = elim (Bool-cases (leb_ℤ (pos e.0) max)) [
  | inl out ↦ rw out (IsFresh-above max member entries h.1)
  | inr kept ↦ rw kept (h.0, IsFresh-above max member entries h.1)
]

slide-eq :
    (now width : ℕ) (member : Text) (entries : List Entry)
    → IsFresh member entries
    → slide now width member entries ≡ (now, member) ∷ above (sub_ℕ now width) entries
slide-eq now width member entries fresh =
    ap (λ es. (now, member) ∷ es)
      (select-fresh member (above (sub_ℕ now width) entries)
        (IsFresh-above (sub_ℕ now width) member entries fresh))

-- A fresh request is counted with every request of its window.
pub length-slide :
    (now width : ℕ) (member : Text) (entries : List Entry)
    → IsFresh member entries
    → length (slide now width member entries) ≡ suc (lives width now entries)
length-slide now width member entries fresh =
    ap length (slide-eq now width member entries fresh) ∙ ap suc (length-above width now entries)

-- It is in the set for as long as it is in a window.
pub lives-slide :
    (now width later : ℕ) (member : Text) (entries : List Entry)
    → IsFresh member entries
    → now ≤ later
    → lives width later (slide now width member entries)
      ≡ lives width later ((now, member) ∷ entries)
lives-slide now width later member entries fresh h =
    ap (lives width later) (slide-eq now width member entries fresh)
    ∙ ground (arith, lives-above width now later entries h)
