-- ===== src/SortedSets.antt =====
-- The sorted sets of Redis, which the rate limits keep in a transaction pipeline: a record with the
-- one operation that the code calls, and the documented effect of the four commands that it queues.
use echo_backend.Base.{ℕ, ◌≤◌, ◌≡◌, not, ◌⊎◌, List, [], ◌∷◌, select, length, if◌then◌else◌}
use echo_backend.Base.Int.{ℤ, pos, leb_ℤ}
use echo_backend.Text.{Text, text_eq}
use echo_backend.Effect.{M, Ensures}

-- A member with its score.
abbrev pub Entry : Type 0
Entry = ℕ × Text

pub data Command : Type 0 where
  -- `ZRemRangeByScore(key, "-inf", max)`
  z_rem_range_by_score : Text → ℤ → Command
  z_add : Text → ℕ → Text → Command
  z_card : Text → Command
  expire : Text → ℤ → Command

pub record SortedSets (W : Type 0) : Type 0 where
  -- `TxPipeline().Exec()` of the queued commands, with their integer replies.
  pub exec : List Command → M W (List ℕ)

-- The sets that are live.
abbrev pub Sets : Type 0
Sets = Text → List Entry

abbrev pub with_set : Text → List Entry → Sets → Sets
with_set key entries sets k = if text_eq k key then entries else sets k

-- A member of a set has one score, the last.
abbrev pub with_entry : ℕ → Text → List Entry → List Entry
with_entry score member entries = (score, member) ∷ select (λ e. not (text_eq e.1 member)) entries

abbrev pub above : ℤ → List Entry → List Entry
above max entries = select (λ e. not (leb_ℤ (pos e.0) max)) entries

-- The sets after a command. An expiry takes effect later.
abbrev pub after : Command → Sets → Sets
after (z_rem_range_by_score key max) sets = with_set key (above max (sets key)) sets
after (z_add key score member) sets = with_set key (with_entry score member (sets key)) sets
after (z_card key) sets = sets
after (expire key ttl) sets = sets

abbrev pub after_all : List Command → Sets → Sets
after_all [] sets = sets
after_all (c ∷ cs) sets = after_all cs (after c sets)

-- The reply of `ZCARD`; the code reads no other.
abbrev pub reply : Command → Sets → ℕ
reply (z_card key) sets = length (sets key)
reply (z_rem_range_by_score key max) sets = 0
reply (z_add key score member) sets = 0
reply (expire key ttl) sets = 0

abbrev pub replies : List Command → Sets → List ℕ
replies [] sets = []
replies (c ∷ cs) sets = reply c sets ∷ replies cs (after c sets)

-- A pipeline that succeeds ran whole. One that fails ran whole or not at all: the connection may
-- break before the answer.
pub record IsSortedSets {W : Type 0} (store : SortedSets W) (sets : W → Sets) (clock : W → ℕ)
    : Type 0 where
  pub exec_lem :
      (cs : List Command) (w : W)
      → Ensures
          (λ ns w'. (ns ≡ replies cs (sets w)) × (sets w' ≡ after_all cs (sets w)))
          (λ _ w'. (sets w' ≡ sets w) ⊎ (sets w' ≡ after_all cs (sets w)))
          (store.exec cs w)
  -- No call turns the clock back.
  pub exec_clock : (cs : List Command) (w : W) → clock w ≤ clock (store.exec cs w).1
