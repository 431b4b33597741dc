-- ===== src/Bitmap/Update.antt =====
-- bitmap_get after bitmap_set of kudos/lib/bitmap.c.
use Prim.Native.Nat.{bit_and, bit_or}
use aar.Base.{
  ℕ, zero, suc, ◌-◌, ◌/◌, ◌%◌, ◌^◌, ◌<◌, ◌≡◌, ◌≢◌, sym, ap, ◌∙◌, true, arith, update, update_self,
  update_ne, ◌==◌, ==_ne, ==_self, if◌then◌else◌, ℕ_discrete, done, Returns,
}
use aar.Base.Int.{pos}
use aar.Bitmap.{get_bit, set_bit, clear_bit, bitmap_get, bitmap_set}
use aar.Bitmap.Bits.{
  bit, bit-bit_or, bit-bit_and, bit_and-one, bit-power, bit-complement, bit-shift, bit-bound,
}

pub get_bit-bit : (b : ℕ → ℕ) (p : ℕ) → get_bit b p ≡ bit (b (p / 32)) (p % 32)
unfolding get_bit
get_bit-bit b p = bit_and-one (b (p / 32) / 2 ^ (p % 32)) ∙ bit-shift (p % 32) (b (p / 32))

pub get_bit-bound : (b : ℕ → ℕ) (p : ℕ) → get_bit b p < 2
get_bit-bound b p = omega (arith, get_bit-bit b p, bit-bound (p % 32) (b (p / 32)))

-- One word replaced, in which only the digit of `p` has changed, to `v`.
replaced :
    (b : ℕ → ℕ) (p q w v : ℕ)
    → ((i : ℕ) → i < 32 → bit w i ≡ (if p % 32 == i then v else bit (b (p / 32)) i))
    → get_bit (update b (p / 32) w) q ≡ (if p == q then v else get_bit b q)
replaced b p q w v h =
    let new = get_bit-bit (update b (p / 32) w) q in
    let old = get_bit-bit b q in
    elim (ℕ_discrete (p / 32) (q / 32)) [
      | no d ↦
          let ne : p ≢ q = λ e. d (ap (λ x. x / 32) e) in
          let kept = ap (λ x. bit x (q % 32)) (update_ne b (p / 32) (q / 32) w d) in
          rw (==_ne p q ne) (new ∙ kept ∙ sym old)
      | yes e ↦
          let word : update b (p / 32) w (q / 32) ≡ w =
            ap (update b (p / 32) w) (sym e) ∙ update_self b (p / 32) w in
          let digit = h (q % 32) (omega arith) in
          let there : bit (b (p / 32)) (q % 32) ≡ get_bit b q =
            ap (λ x. bit (b x) (q % 32)) e ∙ sym old in
          let here : get_bit (update b (p / 32) w) q ≡ bit w (q % 32) =
            new ∙ ap (λ x. bit x (q % 32)) word in
          elim (ℕ_discrete p q) [
            | yes f ↦
                let same : (p % 32 == q % 32) ≡ true =
                  ap (λ x. x % 32 == q % 32) f ∙ ==_self (q % 32) in
                ground (arith, f, here, digit, same)
            | no f ↦
                let other : p % 32 ≢ q % 32 = λ g. f (omega arith) in
                ground (arith, f, here, digit, other, there)
          ]
    ]

pub get_bit-set_bit :
    (b : ℕ → ℕ) (p q : ℕ) → get_bit (set_bit b p) q ≡ (if p == q then 1 else get_bit b q)
unfolding set_bit
get_bit-set_bit b p q = replaced b p q (bit_or (b (p / 32)) (2 ^ (p % 32))) 1 λ i h.
    let e = bit-bit_or i (b (p / 32)) (2 ^ (p % 32)) in
    let f = bit-power (p % 32) i in let g = bit-bound i (b (p / 32)) in ground (arith, e, f, g)

pub get_bit-clear_bit :
    (b : ℕ → ℕ) (p q : ℕ) → get_bit (clear_bit b p) q ≡ (if p == q then 0 else get_bit b q)
unfolding clear_bit
get_bit-clear_bit b p q = replaced b p q (bit_and (b (p / 32)) (2 ^ 32 - 1 - 2 ^ (p % 32))) 0 λ i h.
    let e = bit-bit_and i (b (p / 32)) (2 ^ 32 - 1 - 2 ^ (p % 32)) in
    let f = bit-complement 32 (p % 32) i (omega arith) h in
    let g = bit-bound i (b (p / 32)) in ground (arith, e, f, g)

-- bitmap_set of a bit to 0 or 1 returns, and bitmap_get then gives that value for that bit, and for
-- every other bit what it gave before.
pub bitmap_get-bitmap_set :
    (b : ℕ → ℕ) (p q v : ℕ)
    → v < 2
    → Returns
        (bitmap_set b (pos p) (pos v))
        (λ b'. bitmap_get b' (pos q) ≡ (if p == q then done v else bitmap_get b (pos q)))
unfolding bitmap_set bitmap_get
bitmap_get-bitmap_set b p q zero h = ground (arith, get_bit-clear_bit b p q)
bitmap_get-bitmap_set b p q (suc zero) h = ground (arith, get_bit-set_bit b p q)
bitmap_get-bitmap_set b p q (suc (suc v)) h = absurd (omega arith)
