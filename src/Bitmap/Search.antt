-- ===== src/Bitmap/Search.antt =====
-- bitmap_findnset of kudos/lib/bitmap.c.
use aar.Base.{◌-◌, ◌^◌}
use aar.Base.{
  ℕ, zero, suc, ◌+◌, ◌*◌, ◌/◌, ◌%◌, ◌<◌, ◌≤◌, ◌≡◌, refl, subst, ◌∙◌, inl, inr, true, false, Option,
  none, some, arith, ltb, leb, ◌==◌, if◌then◌else◌, ℕ_discrete, Bool-cases, Returns,
}
use aar.Base.Int.{ℤ, pos, negsuc, pos_part}
use aar.Bitmap.{get_bit, set_bit, scan_word, scan_words, bitmap_findnset, bitmap_sizeof, div_int}
use aar.Bitmap.Bits.{bit-ones}
use aar.Bitmap.Update.{get_bit-bit, get_bit-bound}

-- Every bit before `p` is set.
abbrev pub SetBefore : (ℕ → ℕ) → ℕ → Type 0
SetBefore b p = (q : ℕ) → q < p → get_bit b q ≡ 1

set_if_not_zero : (b : ℕ → ℕ) (p : ℕ) → (get_bit b p == 0) ≡ false → get_bit b p ≡ 1
set_if_not_zero b p h = ground (arith, get_bit-bound b p)

one-SetBefore : (b : ℕ → ℕ) (p : ℕ) → SetBefore b p → get_bit b p ≡ 1 → SetBefore b (p + 1)
one-SetBefore b p s e q l = elim (ℕ_discrete p q) [
  | yes d ↦ subst (λ x. get_bit b x ≡ 1) d e
  | no d ↦ s q (omega arith)
]

-- How the search of a word ends.
data Scans (n p : ℕ) (b : ℕ → ℕ) : Option ℕ → Type 0 where
  zero_at : {r : Option ℕ} (q : ℕ) → r ≡ some q → get_bit b q ≡ 0 → SetBefore b q → Scans n p b r
  all_set : {r : Option ℕ} → r ≡ none → SetBefore b (p + n) → Scans n p b r

scan_word-here : (n p : ℕ) (b : ℕ → ℕ) → (get_bit b p == 0) ≡ true → scan_word (suc n) p b ≡ some p
unfolding scan_word
scan_word-here n p b e = rw e

scan_word-later :
    (n p : ℕ) (b : ℕ → ℕ)
    → (get_bit b p == 0) ≡ false
    → scan_word (suc n) p b ≡ scan_word n (p + 1) b
unfolding scan_word
scan_word-later n p b e = rw e

widen : (n p : ℕ) (b : ℕ → ℕ) (r : Option ℕ) → Scans n (p + 1) b r → Scans (suc n) p b r
widen n p b r (zero_at q e z s) = zero_at q e z s
widen n p b r (all_set e s) = all_set e (λ q l. s q (omega arith))

scan_word-Scans : (n p : ℕ) (b : ℕ → ℕ) → SetBefore b p → Scans n p b (scan_word n p b)
unfolding scan_word
scan_word-Scans zero p b s = all_set refl (λ q l. s q (omega arith))
scan_word-Scans (suc n) p b s = elim (Bool-cases (get_bit b p == 0)) [
  | inl e ↦ zero_at p (scan_word-here n p b e) (ground arith) s
  | inr e ↦ rw (scan_word-later n p b e) (
      widen n p b (scan_word n (p + 1) b)
        (scan_word-Scans n (p + 1) b (one-SetBefore b p s (set_if_not_zero b p e))))
]

-- A word of ones.
full_word :
    (b : ℕ → ℕ) (i : ℕ) → b i ≡ 0xffffffff → SetBefore b (i * 32) → SetBefore b ((i + 1) * 32)
full_word b i e s q l = elim (Bool-cases (ltb q (i * 32))) [
  | inl h ↦ s q (ground arith)
  | inr h ↦
      let here : q / 32 ≡ i = ground arith in
      get_bit-bit b q ∙ rw (here, e) (bit-ones 32 (q % 32) (omega arith))
]

-- The two ways in which bitmap_findnset ends.
pub data Finds (l : ℕ) (b : ℕ → ℕ) : ℤ × (ℕ → ℕ) → Type 0 where
  found :
      {r : ℤ × (ℕ → ℕ)} (p : ℕ)
      → p < l
      → get_bit b p ≡ 0
      → SetBefore b p
      → r ≡ (pos p, set_bit b p)
      → Finds l b r
  full : {r : ℤ × (ℕ → ℕ)} → SetBefore b l → r ≡ (negsuc 0, b) → Finds l b r

skip_full :
    (n i l : ℕ) (b : ℕ → ℕ)
    → (b i == 0xffffffff) ≡ true
    → scan_words (suc n) i l b ≡ scan_words n (i + 1) l b
unfolding scan_words
skip_full n i l b e = rw e

skip_scanned :
    (n i l : ℕ) (b : ℕ → ℕ)
    → (b i == 0xffffffff) ≡ false
    → scan_word 32 (i * 32) b ≡ none
    → scan_words (suc n) i l b ≡ scan_words n (i + 1) l b
unfolding scan_words
skip_scanned n i l b e f = rw (e, f)

stop_at :
    (n i l p : ℕ) (b : ℕ → ℕ)
    → (b i == 0xffffffff) ≡ false
    → scan_word 32 (i * 32) b ≡ some p
    → scan_words (suc n) i l b ≡ (if leb l p then (negsuc 0, b) else (pos p, set_bit b p))
unfolding scan_words
stop_at n i l p b e f = rw (e, f)

stopped-Finds :
    (l p : ℕ) (b : ℕ → ℕ)
    → get_bit b p ≡ 0
    → SetBefore b p
    → Finds l b (if leb l p then (negsuc 0, b) else (pos p, set_bit b p))
stopped-Finds l p b z s = elim (Bool-cases (leb l p)) [
  | inl e ↦ rw e (full (λ q h. s q (ground arith)) refl)
  | inr e ↦ rw e (found p (ground arith) z s refl)
]

scan_words-Finds :
    (n i l : ℕ) (b : ℕ → ℕ)
    → l ≤ (i + n) * 32
    → SetBefore b (i * 32)
    → Finds l b (scan_words n i l b)
unfolding scan_words
scan_words-Finds zero i l b h s = full (λ q k. s q (omega arith)) refl
scan_words-Finds (suc n) i l b h s =
    let next : SetBefore b ((i + 1) * 32) → Finds l b (scan_words n (i + 1) l b) =
      scan_words-Finds n (i + 1) l b (omega arith) in
    elim (Bool-cases (b i == 0xffffffff)) [
      | inl e ↦ rw (skip_full n i l b e) (next (full_word b i (ground arith) s))
      | inr e ↦ elim (scan_word-Scans 32 (i * 32) b s) [
        | all_set f t ↦ rw (skip_scanned n i l b e f) (next (λ q k. t q (omega arith)))
        | zero_at p f z t ↦ rw (stop_at n i l p b e f) (stopped-Finds l p b z t)
      ]
    ]

-- The number of rounds of the outer loop.
words : (l : ℕ) → l ≤ 2 ^ 31 - 32 → pos_part (div_int (bitmap_sizeof (pos l)) 4) ≡ (l + 31) / 32
words l h = ground arith

-- bitmap_findnset for a length from 0 to 2^31 - 32 returns: either the first zero bit, which is
-- within the length and is set, or -1, and then every bit within the length is one and the bitmap
-- is as before.
pub bitmap_findnset-Finds :
    (l : ℕ) (b : ℕ → ℕ) → l ≤ 2 ^ 31 - 32 → Returns (bitmap_findnset b (pos l)) (Finds l b)
unfolding bitmap_findnset
bitmap_findnset-Finds l b h =
    rw (words l h)
      (scan_words-Finds ((l + 31) / 32) 0 l b (omega arith) (λ q k. absurd (omega arith)))
