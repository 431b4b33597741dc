-- ===== src/Tfs/Transfer/Copy.antt =====
-- Copies between the blocks and the caller's buffer in fs/tfs.c, and the words of a block.
use aar.Base.{
  ℕ, ◌+◌, ◌-◌, ◌<◌, ◌≤◌, ◌≡◌, refl, ap, inl, inr, false, ◌&&◌, arith, ltb, leb, if◌then◌else◌,
  Bool-cases,
}
use aar.Base.Int.{pos}
use aar.Libc.Memory.{Apart, memcopy-blit}
use aar.Tfs.{word, beside, copy_between}
use aar.Tfs.Exec.{fill}

pub copy_between-range :
    (n t s : ℕ) (target source : ℕ → ℕ) (x : ℕ)
    → t + n ≤ 0x100000000
    → copy_between (pos n) t s target source x
      ≡ (if leb t x && ltb x (t + n) then source (s + (x - t)) else target x)
unfolding copy_between
copy_between-range n t s target source x h = elim (Bool-cases (ltb x 0x100000000)) [
  | inr e ↦ ground (arith, e)
  | inl e ↦
      let apart : Apart n t (0x100000000 + s) = inl (omega arith) in
      let copied = memcopy-blit n t (0x100000000 + s) (beside target source) x apart in
      elim (Bool-cases (leb t x && ltb x (t + n))) [
        | inl f ↦
            let far : ltb (0x100000000 + s + (x - t)) 0x100000000 ≡ false = ground arith in
            let at : 0x100000000 + s + (x - t) - 0x100000000 ≡ s + (x - t) = omega arith in
            rw (e, copied, f, far) (ap source at)
        | inr f ↦ rw (e, copied, f, e) refl
      ]
]

pub word-fill :
    (content rest : ℕ → ℕ) (i : ℕ) → i < 128 → word (fill content rest) i ≡ word content i
unfolding word
word-fill content rest i h = ground arith
