-- ===== src/Service/Feeds/Cut.antt =====
-- Where `next_cursor` cuts a list of posts in the order of the feed.
use echo_backend.Base.{
  ℕ, zero, suc, ◌%◌, ◌≤◌, ◌<◌, ◌≡◌, ap, true, false, some, List, [], ◌∷◌, ◌==◌, arith, take, drop,
  select, select_kept, All, count, IsOrdered,
}
use echo_backend.Domain.{Time, Post, FeedCursor}
use echo_backend.Repository.Feeds.{newer, is_before, next_cursor, truncate_micro}

-- A post that the feed may show, created at a whole microsecond after the year 1, as PostgreSQL
-- stores times.
abbrev pub IsStamped : Post → Type 0
IsStamped p = (0 < p.created_at) × (p.created_at % 1000 ≡ 0)

abbrev pub IsShown : Post → Type 0
IsShown p = IsStamped p × (p.is_hidden ≡ false)

-- No two posts were created at the same time.
abbrev pub IsSpread : List Post → Type 0
IsSpread posts = (t : Time) → count (λ p. p.created_at == t) posts ≤ 1

-- Each post is older than those before it.
abbrev IsDescending : List Post → Type 0
IsDescending [] = Unit
IsDescending (p ∷ ps) = All (λ q. q.created_at < p.created_at) ps × IsDescending ps

older :
    (p : Post) (ps : List Post)
    → count (λ q. q.created_at == p.created_at) ps ≡ 0
    → All (λ q. newer q p ≡ false) ps
    → All (λ q. q.created_at < p.created_at) ps
unfolding newer
older p [] none_same h = tt
older p (q ∷ ps) none_same h = (ground arith, older p ps (ground arith) h.1)

IsSpread-tail : (p : Post) (ps : List Post) → IsSpread (p ∷ ps) → IsSpread ps
IsSpread-tail p ps h t = ground (arith, h t)

pub IsOrdered-IsDescending : (ps : List Post) → IsOrdered newer ps → IsSpread ps → IsDescending ps
IsOrdered-IsDescending [] o spread = tt
IsOrdered-IsDescending (p ∷ ps) o spread = (
  older p ps (ground (arith, spread p.created_at)) o.0,
  IsOrdered-IsDescending ps o.1 (IsSpread-tail p ps spread),
)

-- Posts older than the cursor pass its test.
older-is_before :
    (c : FeedCursor) (ps : List Post)
    → All IsShown ps
    → All (λ q. q.created_at < c.created_at) ps
    → All (λ q. is_before (some c) q ≡ true) ps
unfolding is_before
older-is_before c [] shown old = tt
older-is_before c (q ∷ ps) shown old = (ground arith, older-is_before c ps shown.1 old.1)

not_before :
    (c : FeedCursor) (p : Post)
    → 0 < c.created_at
    → c.created_at ≤ p.created_at
    → is_before (some c) p ≡ false
unfolding is_before
not_before c p positive later = ground arith

truncate_micro-eq : (t : Time) → t % 1000 ≡ 0 → truncate_micro t ≡ t
unfolding truncate_micro
truncate_micro-eq t h = omega arith

-- The cursor after a page: what it lets through of the posts is what the page leaves.
abbrev IsCut : ℕ → Post → List Post → Type 0
IsCut n p ps =
    (c : FeedCursor) × (next_cursor (take (suc n) (p ∷ ps)) ≡ some c)
    × (c.created_at ≤ p.created_at)
    × (0 < c.created_at)
    × (select (is_before (some c)) (p ∷ ps) ≡ drop (suc n) (p ∷ ps))

here-IsCut :
    (p : Post) (ps : List Post)
    → IsShown p
    → All IsShown ps
    → All (λ q. q.created_at < p.created_at) ps
    → IsCut zero p ps
unfolding next_cursor
here-IsCut p ps shown_p shown old =
    let c : FeedCursor = record { created_at = p.created_at } in
    (
      c,
      ap (λ t. some (record { created_at = t })) (truncate_micro-eq p.created_at shown_p.0.1),
      omega arith,
      shown_p.0.0,
      rw (not_before c p shown_p.0.0 (omega arith))
          (select_kept (is_before (some c)) ps (older-is_before c ps shown old)),
    )

pub cut_lem :
    (n : ℕ) (p : Post) (ps : List Post)
    → All IsShown (p ∷ ps)
    → IsDescending (p ∷ ps)
    → IsCut n p ps
unfolding next_cursor
cut_lem zero p ps shown d = here-IsCut p ps shown.0 shown.1 d.0
cut_lem (suc n) p [] shown d = here-IsCut p [] shown.0 tt tt
cut_lem (suc n) p (q ∷ ps) shown d =
    let (c, next, below, positive, cut) = cut_lem n q ps shown.1 d.1 in
    let reached : c.created_at ≤ p.created_at = omega (arith, d.0.0) in
    (c, next, reached, positive, rw (not_before c p positive reached) cut)
