-- ===== src/Bitmap.antt =====
-- kudos/lib/bitmap.c: bitmaps as arrays of 32-bit words.
pub mod Bits
pub mod Update
pub mod Search
mod Tests
use Prim.Native.Nat.{bit_and, bit_or}
use aar.Base.{
  ℕ, zero, suc, ◌+◌, ◌-◌, ◌*◌, ◌/◌, ◌%◌, ◌^◌, Bool, true, false, not, Option, none, some, Outcome,
  done, panic, update, ltb, leb, ◌==◌, if◌then◌else◌,
}
use aar.Base.Int.{ℤ, pos, negsuc, pos_part, sub_ℕ, ◌+ℤ◌, ◌-ℤ◌, ltb_ℤ}

-- `a + b` as an int of 32 bits, which wraps, where it is not below the least int.
abbrev pub add_int : ℤ → ℤ → ℤ
add_int a b = if ltb_ℤ (a +ℤ b) (pos (2 ^ 31)) then a +ℤ b else a +ℤ b -ℤ pos (2 ^ 32)

-- `a / d`, which rounds towards zero.
abbrev pub div_int : ℤ → ℕ → ℤ
div_int (pos a) d = pos (a / d)
div_int (negsuc a) d = sub_ℕ 0 ((a + 1) / d)

-- `((num_bits + 31) / 32) * 4`
abbrev pub times_4 : ℤ → ℤ
times_4 (pos a) = pos (a * 4)
times_4 (negsuc a) = sub_ℕ 0 ((a + 1) * 4)

abbrev pub bitmap_sizeof : ℤ → ℤ
bitmap_sizeof num_bits = times_4 (div_int (add_int num_bits (pos 31)) 32)

-- The words of a bitmap of `size` bits become zero.
pub bitmap_init : ℤ → (ℕ → ℕ) → Outcome (ℕ → ℕ)
bitmap_init (negsuc n) bitmap = panic
bitmap_init (pos size) bitmap =
    done (λ i. if ltb_ℤ (pos i) (div_int (add_int (pos size) (pos 31)) 32) then 0 else bitmap i)

-- bitmap_get, after its assertion.
unfoldable pub get_bit : (ℕ → ℕ) → ℕ → ℕ
get_bit bitmap p = bit_and (bitmap (p / 32) / 2 ^ (p % 32)) 1

unfoldable pub bitmap_get : (ℕ → ℕ) → ℤ → Outcome ℕ
bitmap_get bitmap (negsuc n) = panic
bitmap_get bitmap (pos p) = done (get_bit bitmap p)

-- The two branches of bitmap_set; `~` is the complement in 32 bits.
unfoldable pub clear_bit : (ℕ → ℕ) → ℕ → ℕ → ℕ
clear_bit bitmap p = update bitmap (p / 32) (bit_and (bitmap (p / 32)) (2 ^ 32 - 1 - 2 ^ (p % 32)))

unfoldable pub set_bit : (ℕ → ℕ) → ℕ → ℕ → ℕ
set_bit bitmap p = update bitmap (p / 32) (bit_or (bitmap (p / 32)) (2 ^ (p % 32)))

unfoldable pub bitmap_set : (ℕ → ℕ) → ℤ → ℤ → Outcome (ℕ → ℕ)
bitmap_set bitmap (negsuc n) value = panic
bitmap_set bitmap (pos p) (pos zero) = done (clear_bit bitmap p)
bitmap_set bitmap (pos p) (pos (suc zero)) = done (set_bit bitmap p)
bitmap_set bitmap (pos p) _ = panic

-- The inner loop of bitmap_findnset, with `n` rounds left from the bit `p` on.
pub scan_word : ℕ → ℕ → (ℕ → ℕ) → Option ℕ
scan_word zero p bitmap = none
scan_word (suc n) p bitmap =
    let more = scan_word n (p + 1) bitmap in if get_bit bitmap p == 0 then some p else more

-- The outer loop, with `n` words left from the word `i` on; it has no round where the size is negative.
pub scan_words : ℕ → ℕ → ℕ → (ℕ → ℕ) → ℤ × (ℕ → ℕ)
scan_words zero i l bitmap = (negsuc 0, bitmap)
scan_words (suc n) i l bitmap =
    let more = scan_words n (i + 1) l bitmap in
    if not (bitmap i == 0xffffffff)
    then elim (scan_word 32 (i * 32) bitmap) [
      | none ↦ more
      | some p ↦ if leb l p then (negsuc 0, bitmap) else (pos p, set_bit bitmap p)
    ]
    else more

pub bitmap_findnset : (ℕ → ℕ) → ℤ → Outcome (ℤ × (ℕ → ℕ))
bitmap_findnset bitmap (negsuc n) = panic
bitmap_findnset bitmap (pos l) =
    done (scan_words (pos_part (div_int (bitmap_sizeof (pos l)) 4)) 0 l bitmap)
