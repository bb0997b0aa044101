-- ===== src/Service/Posts/Tally.antt =====
-- The sum of the reactions to a post, and how the writes of `UpsertReaction` move it.
use echo_backend.Base.{
  ◌≤◌, ◌≡◌, true, false, inl, inr, List, [], ◌∷◌, ◌++◌, ◌==◌, arith, Elem, All, count, rewrite,
  rewrite_none, All-rewrite, All-mono, Elem-count, Bool-cases, if◌then◌else◌,
}
use echo_backend.Base.Int.{ℤ, pos, negsuc, ◌+ℤ◌, ◌-ℤ◌, int_laws}
use echo_backend.Domain.{Uuid, Reaction, ReactionKind}
use echo_backend.Database.{Tables}
use echo_backend.Repository.Posts.{reaction_value, is_zero, by_user, add_score}
use echo_backend.Repository.Posts.Upsert.{scored, set_kind}

-- The value of all reactions to the post `k`.
abbrev pub tally : Uuid → List Reaction → ℤ
tally k [] = pos 0
tally k (r ∷ rs) =
    let rest = tally k rs in if r.post_id == k then reaction_value r.kind +ℤ rest else rest

-- The share of post `k` in a change of `delta` to the post `post_id`.
abbrev pub share : Uuid → Uuid → ℤ → ℤ
share post_id k delta = if post_id == k then delta else pos 0

pub tally-append :
    (k : Uuid) (rs : List Reaction) (r : Reaction)
    → tally k (rs ++ r ∷ []) ≡ tally k rs +ℤ share r.post_id k (reaction_value r.kind)
tally-append k [] r = grind int_laws
tally-append k (x ∷ rs) r = grind (int_laws, tally-append k rs r)

-- The user's only reaction stands first.
tally-change_here :
    (k post_id user_id : Uuid) (kind : ReactionKind) (x : Reaction) (rs : List Reaction)
    → count (by_user post_id user_id) (x ∷ rs) ≤ 1
    → by_user post_id user_id x ≡ true
    → tally k (rewrite (by_user post_id user_id) (set_kind kind) (x ∷ rs))
      ≡ tally k (x ∷ rs) +ℤ share post_id k (reaction_value kind -ℤ reaction_value x.kind)
tally-change_here k post_id user_id kind x rs single own =
    let rest = rewrite_none (by_user post_id user_id) (set_kind kind) rs (ground arith) in
    let same_post : x.post_id ≡ post_id = ground arith in rw (own, rest, same_post) (grind int_laws)

-- It stands further on.
tally-change_there :
    (k post_id user_id : Uuid) (kind : ReactionKind) (delta : ℤ) (x : Reaction) (rs : List Reaction)
    → by_user post_id user_id x ≡ false
    → tally k (rewrite (by_user post_id user_id) (set_kind kind) rs)
      ≡ tally k rs +ℤ share post_id k delta
    → tally k (rewrite (by_user post_id user_id) (set_kind kind) (x ∷ rs))
      ≡ tally k (x ∷ rs) +ℤ share post_id k delta
tally-change_there k post_id user_id kind delta x rs other rest = rw (other, rest) (grind int_laws)

pub tally-change :
    (k post_id user_id : Uuid) (kind : ReactionKind) (old : Reaction) (rs : List Reaction)
    → count (by_user post_id user_id) rs ≤ 1
    → Elem old rs
    → by_user post_id user_id old ≡ true
    → tally k (rewrite (by_user post_id user_id) (set_kind kind) rs)
      ≡ tally k rs +ℤ share post_id k (reaction_value kind -ℤ reaction_value old.kind)
tally-change k post_id user_id kind old [] single stored own = absurd stored
tally-change k post_id user_id kind old (x ∷ rs) single (inl e) own =
    rw e (tally-change_here k post_id user_id kind x rs single (rw e at own))
tally-change k post_id user_id kind old (x ∷ rs) single (inr stored) own =
    let known = Elem-count (by_user post_id user_id) old rs stored own in
    tally-change_there k post_id user_id kind _ x rs (ground arith)
      (tally-change k post_id user_id kind old rs (ground arith) stored own)

is_zero-eq : (delta : ℤ) → is_zero delta ≡ true → delta ≡ pos 0
is_zero-eq (pos n) h = ground arith
is_zero-eq (negsuc n) h = cc

-- Every score is the value of the reactions to its post.
abbrev pub IsTallied : Tables → Type 0
IsTallied t = All (λ p. p.score ≡ tally p.id t.reactions) t.posts

pub scored-IsTallied :
    (post_id : Uuid) (delta : ℤ) (rs : List Reaction) (t : Tables)
    → ((k : Uuid) → tally k rs ≡ tally k t.reactions +ℤ share post_id k delta)
    → IsTallied t
    → IsTallied (scored post_id delta (record t { reactions = rs }))
scored-IsTallied post_id delta rs t moved h = elim (Bool-cases (is_zero delta)) [
  | inl zero_delta ↦ rw zero_delta (
      All-mono (λ p. p.score ≡ tally p.id t.reactions) (λ p. p.score ≡ tally p.id rs) t.posts h
        (λ p e. grind (int_laws, moved p.id, e, is_zero-eq delta zero_delta)))
  | inr other ↦ rw other (
      All-rewrite (λ p. p.id == post_id) (λ p. p.score ≡ tally p.id t.reactions)
        (λ p. p.score ≡ tally p.id rs) (add_score delta) t.posts h
        (λ p e own. grind (int_laws, moved p.id, e, own))
        (λ p e other_post. grind (int_laws, moved p.id, e, other_post)))
]
