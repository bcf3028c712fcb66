-- ===== src/Prelude/Actions.antt =====
-- A computation that changes a state and may fail: `?` on such computations goes on with the state
-- that the failed one left.
use mathlib.Core.Path.{◌≡◌, refl}
use x402_nockchain.Prelude.Results.{Result, ok, err}

abbrev pub Act {ℓ} : Type 0 → Type ℓ → Type 0 → Type ℓ
Act X W A = W → Result X A × W

module _ {ℓ} {X : Type 0} {W : Type ℓ} where
  abbrev pub follow : {A B : Type 0} → (A → Act X W B) → Result X A × W → Result X B × W
  follow next (ok a, w) = next a w
  follow next (err e, w) = (err e, w)

  infixl 5 ◌>>=◌
  abbrev pub ◌>>=◌ : {A B : Type 0} → Act X W A → (A → Act X W B) → Act X W B
  ◌>>=◌ first next w = follow next (first w)

  infixl 5 ◌>>◌
  abbrev pub ◌>>◌ : {B : Type 0} → Act X W (Unit {0}) → Act X W B → Act X W B
  first >> next = first >>= λ _. next

  -- A step that leaves the state alone.
  abbrev pub lift : {A : Type 0} → Result X A → Act X W A
  lift result w = (result, w)

  -- A chain of actions that went well went well at its first step, and from there.
  pub follow-eq-ok :
      {A B : Type 0} (next : A → Act X W B) (r : Result X A × W) (end : W) {b : B}
      → follow next r ≡ (ok b, end)
      → (a : A) × (mid : W) × (r ≡ (ok a, mid)) × (next a mid ≡ (ok b, end))
  follow-eq-ok next (ok a, w) end h = (a, w, refl, h)
  follow-eq-ok next (err e, w) end h = cc
