-- ===== src/Libc/Memory.antt =====
-- memcopy and memoryset of kudos/lib/libc.c.
use aar.Base.{
  ℕ, zero, suc, ◌+◌, ◌-◌, ◌*◌, ◌/◌, ◌%◌, ◌<◌, ◌≤◌, ◌≡◌, ◌≢◌, ap, ◌⊎◌, inl, inr, true, false, not,
  ◌&&◌, ◌||◌, arith, update, ltb, leb, ◌==◌, if◌then◌else◌, Bool-cases, ℕ_discrete,
}
use aar.Base.Int.{pos}
use aar.Libc.{copy_bytes, copy_word, copy_words, memcopy, set_bytes, memoryset}

-- The memory with `n` bytes copied at once.
abbrev pub blit : ℕ → ℕ → ℕ → (ℕ → ℕ) → ℕ → ℕ
blit n t s m x = if leb t x && ltb x (t + n) then m (s + (x - t)) else m x

abbrev pub Apart : ℕ → ℕ → ℕ → Type 0
Apart n t s = (t + n ≤ s) ⊎ (s + n ≤ t)

-- Copying `j` bytes and then the `k` behind them.
blit-blit :
    (j k t s : ℕ) (m : ℕ → ℕ) (x : ℕ)
    → Apart (j + k) t s
    → blit k (t + j) (s + j) (blit j t s m) x ≡ blit (j + k) t s m x
blit-blit j k t s m x h = elim (Bool-cases (leb (t + j) x && ltb x (t + j + k))) [
  | inr e ↦ ground arith
  | inl e ↦
      let here : s + j + (x - (t + j)) ≡ s + (x - t) = ground arith in
      let out : (leb t (s + (x - t)) && ltb (s + (x - t)) (t + j)) ≡ false = ground (arith, h) in
      ground (arith, here, out, ap m here, ap (blit j t s m) here)
]

blit-step :
    (n t s : ℕ) (m : ℕ → ℕ) (x : ℕ)
    → Apart (suc n) t s
    → blit n (t + 1) (s + 1) (update m t (m s)) x ≡ blit (suc n) t s m x
blit-step n t s m x h = elim (Bool-cases (leb (t + 1) x && ltb x (t + 1 + n))) [
  | inr e ↦ elim (ℕ_discrete t x) [
    | yes d ↦ let here : s + (x - t) ≡ s = omega arith in ground (arith, ap m here)
    | no d ↦ ground arith
  ]
  | inl e ↦
      let here : s + 1 + (x - (t + 1)) ≡ s + (x - t) = ground arith in
      let out : t ≢ s + (x - t) = ground (arith, h) in
      ground (arith, here, out, ap m here, ap (update m t (m s)) here)
]

copy_bytes-blit :
    (n i t s : ℕ) (m : ℕ → ℕ) (x : ℕ)
    → Apart (i + n) t s
    → copy_bytes n i t s m x ≡ blit n (t + i) (s + i) m x
unfolding copy_bytes
copy_bytes-blit zero i t s m x h = ground arith
copy_bytes-blit (suc n) i t s m x h =
    let h' : Apart (i + 1 + n) t s = ground (arith, h) in
    let e = copy_bytes-blit n (i + 1) t s (update m (t + i) (m (s + i))) x h' in
    let f = blit-step n (t + i) (s + i) m x (ground (arith, h)) in ground (arith, e, f)

copy_words-blit :
    (n t s : ℕ) (m : ℕ → ℕ) (x : ℕ)
    → Apart (4 * n) t s
    → copy_words n t s m x ≡ blit (4 * n) t s m x
unfolding copy_words
copy_words-blit zero t s m x h = ground arith
copy_words-blit (suc n) t s m x h =
    let h' : Apart (4 * n) (t + 4) (s + 4) = ground (arith, h) in
    let e = copy_words-blit n (t + 4) (s + 4) (copy_word t s m) x h' in
    let f = blit-blit 4 (4 * n) t s m x (ground (arith, h)) in ground (arith, e, f)

memcopy-bytes :
    (n t s : ℕ) (m : ℕ → ℕ)
    → (not (t % 4 == 0) || not (s % 4 == 0)) ≡ true
    → memcopy (pos n) t s m ≡ copy_bytes n 0 t s m
unfolding memcopy
memcopy-bytes n t s m e = rw e

memcopy-words :
    (n t s : ℕ) (m : ℕ → ℕ)
    → (not (t % 4 == 0) || not (s % 4 == 0)) ≡ false
    → memcopy (pos n) t s m
      ≡ copy_bytes (n % 4) 0 (t + 4 * (n / 4)) (s + 4 * (n / 4)) (copy_words (n / 4) t s m)
unfolding memcopy
memcopy-words n t s m e = rw e

-- A copy does not depend on memory outside its source and its place.
blit-agree :
    (n t s : ℕ) (m m' : ℕ → ℕ) (x : ℕ) → ((y : ℕ) → m y ≡ m' y) → blit n t s m x ≡ blit n t s m' x
blit-agree n t s m m' x h = elim (Bool-cases (leb t x && ltb x (t + n))) [
  | inl e ↦ rw e (h (s + (x - t)))
  | inr e ↦ rw e (h x)
]

-- memcopy of `n` bytes to a place that does not overlap the source copies exactly these bytes,
-- whether it copies words or, where an address is not aligned, bytes.
pub memcopy-blit :
    (n t s : ℕ) (m : ℕ → ℕ) (x : ℕ) → Apart n t s → memcopy (pos n) t s m x ≡ blit n t s m x
memcopy-blit n t s m x h = elim (Bool-cases (not (t % 4 == 0) || not (s % 4 == 0))) [
  | inl e ↦
      rw (memcopy-bytes n t s m e)
        (let f = copy_bytes-blit n 0 t s m x (ground (arith, h)) in ground (arith, f))
  | inr e ↦
      let q = 4 * (n / 4) in
      let m' = copy_words (n / 4) t s m in
      let f = copy_bytes-blit (n % 4) 0 (t + q) (s + q) m' x (ground (arith, h)) in
      let g =
        blit-agree (n % 4) (t + q) (s + q) m' (blit q t s m) x
          (λ y. copy_words-blit (n / 4) t s m y (ground (arith, h))) in
      let k = blit-blit q (n % 4) t s m x (ground (arith, h)) in
      rw (memcopy-words n t s m e) (ground (arith, f, g, k))
]

-- Setting `n` bytes from `t + i` on.
set_bytes-range :
    (n i t v : ℕ) (m : ℕ → ℕ) (x : ℕ)
    → set_bytes n i t v m x ≡ (if leb (t + i) x && ltb x (t + i + n) then v else m x)
unfolding set_bytes
set_bytes-range zero i t v m x = ground arith
set_bytes-range (suc n) i t v m x =
    let e = set_bytes-range n (i + 1) t v (update m (t + i) v) x in ground (arith, e)

-- memoryset with zeros.
pub memoryset-zero : (n : ℕ) (m : ℕ → ℕ) (k : ℕ) → k < n → memoryset 0 0 (pos n) m k ≡ 0
unfolding memoryset
memoryset-zero n m k h = let e = set_bytes-range n 0 0 0 m k in ground (arith, e)
