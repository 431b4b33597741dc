-- ===== src/Libc/Compare.antt =====
-- stringcmp of kudos/lib/libc.c as a test of equality.
use mathlib.Core.Logic.{◌↔◌}
use aar.Base.{
  ℕ, zero, suc, ◌<◌, ◌≤◌, ◌≡◌, refl, ◌≢◌, sym, ap, ◌∙◌, inl, inr, true, false, not, ◌&&◌, ◌||◌,
  some, arith, Bool-cases,
}
use aar.Base.Int.{ℤ, pos, negsuc, ◌-ℤ◌, eq_ℤ}
use aar.Libc.{stringcmp}

-- The string has `n` characters.
pub record Length (s : ℕ → ℤ) (n : ℕ) : Type 0 where
  pub goes_on : (i : ℕ) → i < n → s i ≢ pos 0
  pub stops : s n ≡ pos 0

-- The strings agree on the first `n` characters and the one behind them.
abbrev pub Agree : (ℕ → ℤ) → (ℕ → ℤ) → ℕ → Type 0
Agree a b n = (i : ℕ) → i ≤ n → a i ≡ b i

pub eq_ℤ_iff : (a b : ℤ) → (eq_ℤ a b ≡ true) ↔ (a ≡ b)
eq_ℤ_iff (pos a) (pos b) = ground arith
eq_ℤ_iff (pos a) (negsuc b) = ground arith
eq_ℤ_iff (negsuc a) (pos b) = ground arith
eq_ℤ_iff (negsuc a) (negsuc b) = ground arith

pub eq_ℤ_ne : (a b : ℤ) → a ≢ b → eq_ℤ a b ≡ false
eq_ℤ_ne a b h = elim (Bool-cases (eq_ℤ a b)) [ inl e ↦ absurd (h ((eq_ℤ_iff a b).0 e)) | inr e ↦ e ]

ne_of_eq_ℤ : (a b : ℤ) → eq_ℤ a b ≡ false → a ≢ b
ne_of_eq_ℤ a b e = ground (arith, e, eq_ℤ_iff a b)

pub minus_zero_iff : (a b : ℤ) → (eq_ℤ (a -ℤ b) (pos 0) ≡ true) ↔ (a ≡ b)
minus_zero_iff (pos a) (pos b) = ground arith
minus_zero_iff (pos a) (negsuc b) = ground arith
minus_zero_iff (negsuc a) (pos b) = ground arith
minus_zero_iff (negsuc a) (negsuc b) = ground arith

both_end :
    (fuel : ℕ) (a b : ℕ → ℤ)
    → eq_ℤ (a 0) (pos 0) ≡ true
    → eq_ℤ (b 0) (pos 0) ≡ true
    → stringcmp (suc fuel) a b ≡ some (pos 0)
unfolding stringcmp
both_end fuel a b e f = rw (e, f)

part :
    (fuel : ℕ) (a b : ℕ → ℤ)
    → (eq_ℤ (a 0) (pos 0) && eq_ℤ (b 0) (pos 0)) ≡ false
    → (eq_ℤ (a 0) (pos 0) || (eq_ℤ (b 0) (pos 0) || not (eq_ℤ (a 0) (b 0)))) ≡ true
    → stringcmp (suc fuel) a b ≡ some (a 0 -ℤ b 0)
unfolding stringcmp
part fuel a b e f = rw (e, f)

go_on :
    (fuel : ℕ) (a b : ℕ → ℤ)
    → eq_ℤ (a 0) (pos 0) ≡ false
    → eq_ℤ (b 0) (pos 0) ≡ false
    → eq_ℤ (a 0) (b 0) ≡ true
    → stringcmp (suc fuel) a b ≡ stringcmp fuel (λ i. a (suc i)) (λ i. b (suc i))
unfolding stringcmp
go_on fuel a b e f g = rw (e, f, g)

-- What the result `r` tells of the strings.
abbrev pub Tells : ℤ → (ℕ → ℤ) → (ℕ → ℤ) → ℕ → Type 0
Tells r a b n = (eq_ℤ r (pos 0) ≡ true) ↔ Agree a b n

-- Strings that part at their first character agree nowhere.
part-Tells : (a b : ℕ → ℤ) (n : ℕ) → eq_ℤ (a 0) (b 0) ≡ false → Tells (a 0 -ℤ b 0) a b n
part-Tells a b n e =
    let no = ne_of_eq_ℤ (a 0) (b 0) e in
    ((λ h. absurd (no ((minus_zero_iff (a 0) (b 0)).0 h))), λ h. absurd (no (h 0 (omega arith))))

Agree-suc :
    (a b : ℕ → ℤ) (n : ℕ)
    → a 0 ≡ b 0
    → Agree (λ i. a (suc i)) (λ i. b (suc i)) n ↔ Agree a b (suc n)
Agree-suc a b n e = (to, λ h i l. h (suc i) (omega arith))
  where
    to : Agree (λ i. a (suc i)) (λ i. b (suc i)) n → Agree a b (suc n)
    to h zero l = e
    to h (suc i) l = h i (omega arith)

Agree-zero : (a b : ℕ → ℤ) → a 0 ≡ b 0 → Agree a b 0
Agree-zero a b e zero l = e
Agree-zero a b e (suc i) l = absurd (omega arith)

Tells-empty :
    (a b : ℕ → ℤ) (fuel : ℕ)
    → b 0 ≡ pos 0
    → (r : ℤ) × (stringcmp (suc fuel) a b ≡ some r) × Tells r a b 0
Tells-empty a b fuel z =
    let end : eq_ℤ (b 0) (pos 0) ≡ true = (eq_ℤ_iff (b 0) (pos 0)).1 z in
    elim (Bool-cases (eq_ℤ (a 0) (pos 0))) [
      | inl e ↦
          let same : a 0 ≡ b 0 = (eq_ℤ_iff (a 0) (pos 0)).0 e ∙ sym z in
          (pos 0, both_end fuel a b e end, ((λ h. Agree-zero a b same), λ h. refl))
      | inr e ↦
          let differ : a 0 ≢ b 0 = λ d. ne_of_eq_ℤ (a 0) (pos 0) e (d ∙ z) in
          (
            a 0 -ℤ b 0,
            part fuel a b (rw e refl) (rw (e, end) refl),
            (
              (λ h. absurd (differ ((minus_zero_iff (a 0) (b 0)).0 h))),
              λ h. absurd (differ (h 0 (omega arith))),
            ),
          )
    ]

-- stringcmp ends within `fuel` rounds if its second string has fewer characters, whatever the first
-- one is, and its result is zero exactly if the strings agree up to the zero behind them.
pub stringcmp-Tells :
    (fuel n : ℕ) (a b : ℕ → ℤ)
    → n < fuel
    → Length b n
    → (r : ℤ) × (stringcmp fuel a b ≡ some r) × Tells r a b n
stringcmp-Tells zero n a b l h = absurd (omega arith)
stringcmp-Tells (suc fuel) zero a b l h = Tells-empty a b fuel h.stops
stringcmp-Tells (suc fuel) (suc n) a b l h =
    let more : eq_ℤ (b 0) (pos 0) ≡ false = eq_ℤ_ne (b 0) (pos 0) (h.goes_on 0 (omega arith)) in
    elim (Bool-cases (eq_ℤ (a 0) (b 0))) [
      | inr e ↦ (
        a 0 -ℤ b 0,
        part fuel a b (ground (arith, more)) (ground (arith, more, e)),
        part-Tells a b (suc n) e,
      )
      | inl e ↦
          let same : a 0 ≡ b 0 = (eq_ℤ_iff (a 0) (b 0)).0 e in
          let rest : Length (λ i. b (suc i)) n = record {
            goes_on = λ i k. h.goes_on (suc i) (omega arith);
            stops = h.stops;
          } in
          let (r, found, tells) =
            stringcmp-Tells fuel n (λ i. a (suc i)) (λ i. b (suc i)) (omega arith) rest in
          let step = go_on fuel a b (ap (λ c. eq_ℤ c (pos 0)) same ∙ more) more e in
          let agree = Agree-suc a b n same in
          (r, step ∙ found, ((λ k. agree.0 (tells.0 k)), λ k. tells.1 (agree.1 k)))
    ]
