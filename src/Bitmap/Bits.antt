-- ===== src/Bitmap/Bits.antt =====
-- The binary digits of the words of kudos/lib/bitmap.c, and of the masks that it uses.
use Prim.Native.Nat.{min, max, digits, bitwise, bit_and, bit_or, bit_and-bitwise, bit_or-bitwise}
use native.Mathlib.Nat.{le_refl, pow-suc, mul_assoc, one-le-pow, div-div-eq-div-mul}
use aar.Base.{
  ℕ, zero, suc, ◌+◌, ◌-◌, ◌*◌, ◌/◌, ◌%◌, ◌^◌, ◌<◌, ◌≤◌, ◌≡◌, refl, sym, ap, ◌∙◌, arith, ◌==◌,
  if◌then◌else◌,
}

-- The recursion of the native operations is on binary digits with fuel; it does not matter how much.
module _ (z : ℕ → ℕ) (f : ℕ → ℕ → ℕ) where
  digits_enough : (n m a b : ℕ) → a ≤ n → a ≤ m → digits z f n a b ≡ digits z f m a b
  digits_enough n m zero b p q = both_zero n m b
    where
      both_zero : (n m b : ℕ) → digits z f n 0 b ≡ digits z f m 0 b
      both_zero zero zero b = refl
      both_zero zero (suc m) b = refl
      both_zero (suc n) zero b = refl
      both_zero (suc n) (suc m) b = refl
  digits_enough zero m (suc a) b p q = absurd (omega arith)
  digits_enough (suc n) zero (suc a) b p q = absurd (omega arith)
  digits_enough (suc n) (suc m) (suc a) b p q =
      rw (digits_enough n m (suc a / 2) (b / 2) (omega arith) (omega arith))

  lowest_digit :
      (a b : ℕ)
      → bitwise z f (suc a) b ≡ bitwise z f (suc a / 2) (b / 2) * 2 + f (suc a % 2) (b % 2)
  lowest_digit a b =
      omega (arith, digits_enough a (suc a / 2) (suc a / 2) (b / 2) (omega arith) (le_refl _))

bit_or-halves : (a b : ℕ) → bit_or a b ≡ bit_or (a / 2) (b / 2) * 2 + max (a % 2) (b % 2)
bit_or-halves zero b = simp bit_or-bitwise (omega arith)
bit_or-halves (suc a) b = simp bit_or-bitwise (lowest_digit (λ y. y) max a b)

bit_and-halves : (a b : ℕ) → bit_and a b ≡ bit_and (a / 2) (b / 2) * 2 + min (a % 2) (b % 2)
bit_and-halves zero b = simp bit_and-bitwise (omega arith)
bit_and-halves (suc a) b = simp bit_and-bitwise (lowest_digit (λ y. 0) min a b)

-- The digit `j` of a number.
abbrev pub bit : ℕ → ℕ → ℕ
bit a zero = a % 2
bit a (suc j) = bit (a / 2) j

pub bit-bit_or : (j a b : ℕ) → bit (bit_or a b) j ≡ max (bit a j) (bit b j)
bit-bit_or zero a b = omega (arith, bit_or-halves a b)
bit-bit_or (suc j) a b =
    let e : bit_or a b / 2 ≡ bit_or (a / 2) (b / 2) = omega (arith, bit_or-halves a b) in
    rw e (bit-bit_or j (a / 2) (b / 2))

pub bit-bit_and : (j a b : ℕ) → bit (bit_and a b) j ≡ min (bit a j) (bit b j)
bit-bit_and zero a b = omega (arith, bit_and-halves a b)
bit-bit_and (suc j) a b =
    let e : bit_and a b / 2 ≡ bit_and (a / 2) (b / 2) = omega (arith, bit_and-halves a b) in
    rw e (bit-bit_and j (a / 2) (b / 2))

bit-zero : (j : ℕ) → bit 0 j ≡ 0
bit-zero zero = refl
bit-zero (suc j) = bit-zero j

bit_and-zero_lem : (n a : ℕ) → a ≤ n → bit_and a 0 ≡ 0
bit_and-zero_lem zero a h = let e : a ≡ 0 = omega arith in rw e refl
bit_and-zero_lem (suc n) zero h = refl
bit_and-zero_lem (suc n) (suc a) h =
    omega (arith, bit_and-halves (suc a) 0, bit_and-zero_lem n (suc a / 2) (omega arith))

-- `& 1`
pub bit_and-one : (a : ℕ) → bit_and a 1 ≡ a % 2
bit_and-one a = omega (arith, bit_and-halves a 1, bit_and-zero_lem (a / 2) (a / 2) (le_refl _))

-- `1 << j`
pub bit-power : (j i : ℕ) → bit (2 ^ j) i ≡ (if j == i then 1 else 0)
bit-power zero zero = refl
bit-power zero (suc i) = ground (arith, bit-zero i)
bit-power (suc j) zero = ground (arith, pow-suc 2 j)
bit-power (suc j) (suc i) =
    let e : 2 ^ suc j / 2 ≡ 2 ^ j = omega (arith, pow-suc 2 j) in
    rw e (ground (arith, bit-power j i))

pub bit-ones : (n i : ℕ) → i < n → bit (2 ^ n - 1) i ≡ 1
bit-ones zero i h = absurd (omega arith)
bit-ones (suc n) zero h = omega (arith, pow-suc 2 n, one-le-pow n 2)
bit-ones (suc n) (suc i) h =
    let e : (2 ^ suc n - 1) / 2 ≡ 2 ^ n - 1 = omega (arith, pow-suc 2 n, one-le-pow n 2) in
    rw e (bit-ones n i (omega arith))

pow_mono : (j n : ℕ) → j < n → 2 ^ j < 2 ^ n
pow_mono j zero h = absurd (omega arith)
pow_mono zero (suc n) h = omega (arith, pow-suc 2 n, one-le-pow n 2)
pow_mono (suc j) (suc n) h = omega (arith, pow-suc 2 j, pow-suc 2 n, pow_mono j n (omega arith))

-- `~(1 << j)` in `n` bits.
pub bit-complement :
    (n j i : ℕ) → j < n → i < n → bit (2 ^ n - 1 - 2 ^ j) i ≡ (if j == i then 0 else 1)
bit-complement zero j i h k = absurd (omega arith)
bit-complement (suc n) zero zero h k =
    let e : (2 ^ suc n - 1 - 2 ^ 0) % 2 ≡ 0 = omega (arith, pow-suc 2 n, one-le-pow n 2) in
    ground (arith, e)
bit-complement (suc n) zero (suc i) h k =
    let e : (2 ^ suc n - 1 - 2 ^ 0) / 2 ≡ 2 ^ n - 1 = omega (arith, pow-suc 2 n, one-le-pow n 2) in
    rw e (ground (arith, bit-ones n i (omega arith)))
bit-complement (suc n) (suc j) zero h k =
    let less : 2 ^ j < 2 ^ n = pow_mono j n (omega arith) in
    let e : (2 ^ suc n - 1 - 2 ^ suc j) % 2 ≡ 1 = omega (arith, pow-suc 2 n, pow-suc 2 j, less) in
    ground (arith, e)
bit-complement (suc n) (suc j) (suc i) h k =
    let less : 2 ^ j < 2 ^ n = pow_mono j n (omega arith) in
    let e : (2 ^ suc n - 1 - 2 ^ suc j) / 2 ≡ 2 ^ n - 1 - 2 ^ j =
      omega (arith, pow-suc 2 n, pow-suc 2 j, less) in
    rw e (ground (arith, bit-complement n j i (omega arith) (omega arith)))

-- `>> j`
pub bit-shift : (j a : ℕ) → a / 2 ^ j % 2 ≡ bit a j
bit-shift zero a = omega arith
bit-shift (suc j) a =
    let twice : 2 ^ suc j ≡ 2 * 2 ^ j = omega (arith, pow-suc 2 j) in
    let e : a / 2 ^ suc j ≡ a / 2 / 2 ^ j =
      ap (λ t. a / t) twice ∙ sym (div-div-eq-div-mul a 2 (2 ^ j)) in
    ap (λ t. t % 2) e ∙ bit-shift j (a / 2)

pub bit-bound : (j a : ℕ) → bit a j < 2
bit-bound zero a = omega arith
bit-bound (suc j) a = bit-bound j (a / 2)

power-twice : (n q : ℕ) → 2 ^ suc n * q ≡ 2 * (2 ^ n * q)
power-twice n q = omega (arith, ap (λ t. t * q) (pow-suc 2 n), mul_assoc 2 (2 ^ n) q)

-- The lower digits do not depend on the higher ones.
pub bit-high : (n j a q : ℕ) → j < n → bit (a + 2 ^ n * q) j ≡ bit a j
bit-high zero j a q h = absurd (omega arith)
bit-high (suc n) zero a q h = omega (arith, power-twice n q)
bit-high (suc n) (suc j) a q h =
    let half : (a + 2 ^ suc n * q) / 2 ≡ a / 2 + 2 ^ n * q = omega (arith, power-twice n q) in
    ap (λ t. bit t j) half ∙ bit-high n j (a / 2) q (omega arith)
