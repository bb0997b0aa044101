-- ===== src/Repository/Posts/Upsert.antt =====
-- What `UpsertReaction` of internal/repository/post.go does to the rows.
use echo_backend.Base.{
  ℕ, ◌≡◌, ◌∙◌, refl, sym, true, false, not, inl, inr, List, ◌++◌, [], ◌∷◌, ◌==◌, arith, Elem, count,
  rewrite, Bool-cases, ltb, if◌then◌else◌,
}
use mathlib.Core.Path.{subst}
use echo_backend.Base.Int.{ℤ, pos, ◌-ℤ◌}
use echo_backend.Errors.{Error, Result, ok, err, is_error, record_not_found}
use echo_backend.Effect.{Ensures, fail}
use echo_backend.Effect.Rules.{bind, returned, failed, branch, Ensures-mono, attempted}
use echo_backend.Domain.{Uuid, Time, Reaction, ReactionKind, kind_eq}
use echo_backend.Database.{Database, Tables, IsDatabase, same_reaction, with_reaction}
use echo_backend.Database.Laws.{anyway, transacted}
use echo_backend.Repository.Posts.{
  reaction_value, is_zero, by_user, add_score, score_delta, add_to_score, upsert_body,
  upsert_reaction,
}

-- The rows after `if scoreDelta != 0 { … }`.
abbrev pub scored : Uuid → ℤ → Tables → Tables
scored post_id delta t =
    if is_zero delta
    then t
    else record t { posts = rewrite (λ p. p.id == post_id) (add_score delta) t.posts }

abbrev pub new_reaction : Uuid → Uuid → ReactionKind → Time → Reaction
new_reaction post_id user_id kind at = record {
  user_id = user_id;
  post_id = post_id;
  kind = kind;
  created_at = at;
}

abbrev pub set_kind : ReactionKind → Reaction → Reaction
set_kind kind r = record r { kind = kind }

abbrev pub with_new : Reaction → Tables → Tables
with_new r t = record t { reactions = t.reactions ++ r ∷ [] }

abbrev pub with_kind : Uuid → Uuid → ReactionKind → Tables → Tables
with_kind post_id user_id kind t = record t {
  reactions = rewrite (by_user post_id user_id) (set_kind kind) t.reactions;
}

-- The three ways in which an upsert ends, where `n` is what the transaction's handle tells as
-- `RowsAffected`: a first reaction, a change of kind, and the same kind again.
pub data Upserted (n : ℕ) (post_id user_id : Uuid) (kind : ReactionKind) (t t' : Tables)
    : Type 0 where
  first_reaction :
      (at : Time)
      → count (by_user post_id user_id) t.reactions ≡ 0
      → t'
        ≡ scored post_id
            (if ltb 0 n then reaction_value kind else pos 0)
            (with_new (new_reaction post_id user_id kind at) t)
      → Upserted n post_id user_id kind t t'
  change :
      (old : Reaction)
      → Elem old t.reactions
      → by_user post_id user_id old ≡ true
      → kind_eq old.kind kind ≡ false
      → t'
        ≡ scored post_id
            (reaction_value kind -ℤ reaction_value old.kind)
            (with_kind post_id user_id kind t)
      → Upserted n post_id user_id kind t t'
  same_again :
      (old : Reaction)
      → Elem old t.reactions
      → by_user post_id user_id old ≡ true
      → kind_eq old.kind kind ≡ true
      → t' ≡ t
      → Upserted n post_id user_id kind t t'

same_reaction-by_user :
    {W : Type 0} (view : W → Tables) (post_id user_id : Uuid) (kind : ReactionKind)
    (xs : List Reaction)
    → count (same_reaction view (new_reaction post_id user_id kind 0)) xs
      ≡ count (by_user post_id user_id) xs
same_reaction-by_user view post_id user_id kind [] = refl
same_reaction-by_user view post_id user_id kind (x ∷ xs) =
    ground (arith, same_reaction-by_user view post_id user_id kind xs)

with_reaction-with_new :
    {W : Type 0} (view : W → Tables) (post_id user_id : Uuid) (kind : ReactionKind) (at : Time)
    (t : Tables)
    → count (by_user post_id user_id) t.reactions ≡ 0
    → with_reaction view (new_reaction post_id user_id kind 0) at t
      ≡ with_new (new_reaction post_id user_id kind at) t
with_reaction-with_new view post_id user_id kind at t absent =
    ground (arith, same_reaction-by_user view post_id user_id kind t.reactions)

module _ {W : Type 0} (db : Database W) (view : W → Tables) (d : IsDatabase view db) (n : ℕ)
    (handle : (w : W) → db.handle_rows_affected w ≡ n) (post_id user_id : Uuid)
    (kind : ReactionKind) where
  add_to_score_lem :
      (delta : ℤ) (w : W)
      → Ensures
          (λ _ w'. view w' ≡ scored post_id delta (view w))
          (λ _ _. Unit {0})
          (add_to_score db post_id delta w)
  unfolding add_to_score
  add_to_score_lem delta w =
      branch _ _ (is_zero delta) _ _ w (λ zero_delta. returned _ _ _ _ (rw zero_delta))
        (λ other.
          bind _ _ _ _ _ w
            (anyway _ _ _ (d.posts_table.update_lem (λ p. p.id == post_id) (add_score delta) w))
            λ _ w' h. returned _ _ _ _ (rw other h.1))

  -- The rows after the reaction is written, and the delta that is returned.
  Delta : Tables → ℤ → Tables → Type 0
  Delta t delta t₁ =
      (t' : Tables) → t' ≡ scored post_id delta t₁ → Upserted n post_id user_id kind t t'

  absent_lem :
      (w : W)
      → count (by_user post_id user_id) (view w).reactions ≡ 0
      → (e : Error) → is_error e record_not_found ≡ true
      → Ensures
          (λ delta w'. Delta (view w) delta (view w'))
          (λ _ _. Unit {0})
          (score_delta db post_id user_id kind (err e) w)
  unfolding score_delta Delta
  absent_lem w absent e known =
      branch _ _ (is_error e record_not_found) _ (fail e) w
        (λ _. bind _ _ _ _ _ w (anyway _ _ _ (d.create_reaction_lem _ w)) λ _ w₁ h.
          bind _ _ (λ k w'. (k ≡ n) × (view w' ≡ view w₁)) _ _ w₁
            (returned _ _ _ _ (handle w₁, refl))
            λ k w₂ h₂. returned _ _ _ _ λ t' e'.
              first_reaction (d.filled_time (new_reaction post_id user_id kind 0) w) absent (
                e'
                ∙ rw (
                  h₂.0,
                  h₂.1,
                  h,
                  with_reaction-with_new view post_id user_id kind _ (view w) absent,
                )))
        (λ other. absurd (ground arith))

  present_lem :
      (w : W) (old : Reaction)
      → Elem old (view w).reactions
      → by_user post_id user_id old ≡ true
      → Ensures
          (λ delta w'. Delta (view w) delta (view w'))
          (λ _ _. Unit {0})
          (score_delta db post_id user_id kind (ok old) w)
  unfolding score_delta Delta
  present_lem w old stored own =
      branch _ _ (not (kind_eq old.kind kind)) _ _ w
        (λ differs.
          bind _ _ _ _ _ w
            (anyway _ _ _
              (d.reactions_table.update_lem (by_user post_id user_id) (set_kind kind) w))
            λ _ w₁ h. returned _ _ _ _ λ t' e'. change old stored own (ground arith) (e' ∙ rw h.1))
        (λ agrees. returned _ _ _ _ λ t' e'. same_again old stored own (ground arith) e')

  -- What the lookup of the user's reaction told.
  abbrev Known : Tables → Result Reaction → Type 0
  Known t (ok old) = Elem old t.reactions × (by_user post_id user_id old ≡ true)
  Known t (err e) =
      is_error e record_not_found ≡ true → count (by_user post_id user_id) t.reactions ≡ 0

  delta_lem :
      (r : Result Reaction) (w : W)
      → Known (view w) r
      → Ensures
          (λ delta w'. Delta (view w) delta (view w'))
          (λ _ _. Unit {0})
          (score_delta db post_id user_id kind r w)
  unfolding score_delta
  delta_lem (ok old) w h = present_lem w old h.0 h.1
  delta_lem (err e) w h = elim (Bool-cases (is_error e record_not_found)) [
    | inl known ↦ absent_lem w (h known) e known
    | inr other ↦
        branch _ _ (is_error e record_not_found) _ (fail e) w (λ known. absurd (ground arith))
          (λ _. failed _ _ _ _ tt)
  ]

  upsert_body_lem :
      (w : W)
      → Ensures
          (λ _ w'. Upserted n post_id user_id kind (view w) (view w'))
          (λ _ _. Unit {0})
          (upsert_body db post_id user_id kind w)
  unfolding upsert_body Delta
  upsert_body_lem w =
      bind _ _ (λ r w'. (view w' ≡ view w) × Known (view w) r) _ _ w
        (attempted _ _ _ w (
          Ensures-mono _ _ _ _ _ (d.reactions_table.first_lem (by_user post_id user_id) w)
            (λ old w' h. (h.2, (h.0, h.1))) (λ e w' h. (h.2, h.0))))
        λ r w₁ h₁.
          bind _ _ (λ delta w'. Delta (view w) delta (view w')) _ _ w₁
            (subst
              (λ t.
                Ensures (λ delta w'. Delta t delta (view w')) (λ _ _. Unit {0})
                  (score_delta db post_id user_id kind r w₁))
              h₁.0 (delta_lem r w₁ (subst (λ t. Known t r) (sym h₁.0) h₁.1)))
            λ delta w₂ h₂.
              Ensures-mono _ _ _ _ _ (add_to_score_lem delta w₂) (λ _ w₃ h₃. h₂ _ h₃) (λ _ _ _. tt)

  pub upsert_reaction_lem :
      (w : W)
      → Ensures
          (λ _ w'. Upserted n post_id user_id kind (view w) (view w'))
          (λ _ w'. view w' ≡ view w)
          (upsert_reaction db post_id user_id kind w)
  unfolding upsert_reaction
  upsert_reaction_lem w =
      transacted db view d _ _ (λ _ t t'. Upserted n post_id user_id kind t t') w upsert_body_lem
