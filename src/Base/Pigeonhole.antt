-- ===== src/Base/Pigeonhole.antt =====
-- A list of distinct numbers below a bound is no longer than the bound.
use Prim.Native.Nat.{ℕ, zero, suc, ◌≤◌, ◌<◌}
use mathlib.Core.Logic.{◌⊎◌, inl, inr, ◌≢◌}
use mathlib.Core.List.{List, [], ◌∷◌, ◌++◌}
use mathlib.Core.Path.{◌≡◌, ap, subst}
use native.Mathlib.Decide.{ℕ_discrete}
use native.Mathlib.Omega.{arith}
use aar.Base.Lists.{
  length, length-append, NotIn, Distinct, All, All-zip, All-remove, All-of_NotIn, Distinct-remove,
  NotIn-of_Distinct,
}

-- An entry is found, with what stands before and behind it, or is not there.
find_split :
    (t : ℕ) (xs : List ℕ) → NotIn t xs ⊎ ((ys : List ℕ) × (zs : List ℕ) × (xs ≡ ys ++ t ∷ zs))
find_split t [] = inl tt
find_split t (x ∷ xs) = elim (ℕ_discrete t x) [
  | yes e ↦ inr ([], xs, rw e)
  | no n ↦ elim (find_split t xs) [ inl m ↦ inl (n, m) | inr (ys, zs, e) ↦ inr (x ∷ ys, zs, rw e) ]
]

below_of_NotIn : (n : ℕ) (xs : List ℕ) → NotIn n xs → All (λ x. x < suc n) xs → All (λ x. x < n) xs
below_of_NotIn n xs m a =
    All-zip (λ x. n ≢ x) (λ x. x < suc n) (λ x. x < n) xs (λ x p q. omega arith)
      (All-of_NotIn n xs m) a

pub length-le_of_Distinct :
    (n : ℕ) (xs : List ℕ) → Distinct xs → All (λ x. x < n) xs → length xs ≤ n
length-le_of_Distinct zero [] d a = omega arith
length-le_of_Distinct zero (x ∷ xs) d a = absurd (omega arith)
length-le_of_Distinct (suc n) xs d a = elim (find_split n xs) [
  | inl m ↦ omega (arith, length-le_of_Distinct n xs d (below_of_NotIn n xs m a))
  | inr (ys, zs, e) ↦
      let d' : Distinct (ys ++ n ∷ zs) = subst Distinct e d in
      let a' : All (λ x. x < suc n) (ys ++ n ∷ zs) = subst (All (λ x. x < suc n)) e a in
      omega (
        arith,
        length-le_of_Distinct n (ys ++ zs) (Distinct-remove n ys zs d') (
            below_of_NotIn n (ys ++ zs) (NotIn-of_Distinct n ys zs d')
              (All-remove (λ x. x < suc n) n ys zs a')),
        ap length e,
        length-append ys (n ∷ zs),
        length-append ys zs,
      )
]
