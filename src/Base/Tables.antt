-- ===== src/Base/Tables.antt =====
-- C arrays of a fixed size, as functions; the bounds are tested where the code indexes them.
use Prim.Native.Nat.{ℕ}
use mathlib.Core.Path.{◌≡◌, fun_ext, ap}
use native.Mathlib.Decide.{ℕ_discrete}
use mathlib.Core.Logic.{◌≢◌}
use native.Mathlib.Omega.{arith}
use aar.Base.Tests.{◌==◌, if◌then◌else◌}

module _ {ℓ} {A : Type ℓ} where
  abbrev pub update : (ℕ → A) → ℕ → A → ℕ → A
  update f i v j = if i == j then v else f j

  pub update_self : (f : ℕ → A) (i : ℕ) (v : A) → update f i v i ≡ v
  update_self f i v = ground arith

  pub update_ne : (f : ℕ → A) (i j : ℕ) (v : A) → i ≢ j → update f i v j ≡ f j
  update_ne f i j v h = ground arith

  pub update_twice : (f : ℕ → A) (i : ℕ) (v w : A) → update (update f i v) i w ≡ update f i w
  update_twice f i v w = fun_ext λ j. ground arith

  pub update_same : (f : ℕ → A) (i : ℕ) (v : A) → f i ≡ v → update f i v ≡ f
  update_same f i v e =
      fun_ext λ j. elim (ℕ_discrete i j) [
        | yes d ↦ ground (arith, e, ap f d)
        | no n ↦ update_ne f i j v n
      ]
