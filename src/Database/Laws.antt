-- ===== src/Database/Laws.antt =====
-- A law that was used on a later world with the same rows, told of the first world.
use echo_backend.Base.{◌≡◌, ◌∙◌}
use echo_backend.Errors.{Error, Result, ok, err}
use echo_backend.Effect.{M, Ensures}
use echo_backend.Effect.Rules.{Ensures-mono}
use echo_backend.Database.{Database, Tables, IsDatabase, Transacts}

module _ {W V : Type 0} (view : W → V) where
  -- The condition on failure, `view w' ≡ view w₁`, carried back to `w` by `view w₁ ≡ view w`.
  pub since :
      {A : Type 0} (Q : A → W → Type 0) (w w₁ : W) (x : Result A × W)
      → view w₁ ≡ view w
      → Ensures Q (λ _ w'. view w' ≡ view w₁) x
      → Ensures Q (λ _ w'. view w' ≡ view w) x
  since Q w w₁ x same h =
      Ensures-mono _ _ _ _ x h (λ a w' q. q) (λ e w' unchanged. unchanged ∙ same)

-- What a call ensures if it returns, where nothing is asked of a failure.
pub anyway :
    {W A : Type 0} (Q : A → W → Type 0) (E : Error → W → Type 0) (x : Result A × W)
    → Ensures Q E x
    → Ensures Q (λ _ _. Unit {0}) x
anyway Q E x h = Ensures-mono _ _ _ _ x h (λ a w' q. q) (λ e w' _. tt)

module _ {W : Type 0} (db : Database W) (view : W → Tables) (d : IsDatabase view db) where
  -- A transaction does what its body does to the rows, or nothing.
  pub transacted :
      (A : Type 0) (body : M W A) (Q : A → Tables → Tables → Type 0) (w : W)
      → ((w₀ : W) → Ensures (λ a w'. Q a (view w₀) (view w')) (λ _ _. Unit {0}) (body w₀))
      → Ensures
          (λ a w'. Q a (view w) (view w'))
          (λ _ w'. view w' ≡ view w)
          (db.transaction A body w)
  unfolding Ensures
  transacted A body Q w h =
      go (body (d.begun w)) (db.transaction A body w) (d.transaction_lem A body w) (h (d.begun w))
    where
      go :
          (x y : Result A × W)
          → Transacts view w x y
          → Ensures (λ a w'. Q a (view (d.begun w)) (view w')) (λ _ _. Unit {0}) x
          → Ensures (λ a w'. Q a (view w) (view w')) (λ _ w'. view w' ≡ view w) y
      go x (err e, w') same q = same
      go (err e, w₁) (ok b, w') never q = absurd never
      go (ok a, w₁) (ok b, w') h q = rw (h.0, h.1) (rw (d.begun_reads w) at q)
