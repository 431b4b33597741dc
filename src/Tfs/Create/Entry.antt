-- ===== src/Tfs/Create/Entry.antt =====
-- The entry of the directory that tfs_create of fs/tfs.c fills.
use aar.Base.{
  ℕ, ◌+◌, ◌-◌, ◌*◌, ◌/◌, ◌<◌, ◌≤◌, ◌≡◌, refl, sym, ap, ◌∙◌, ◌⊎◌, inl, inr, true, false, ◌&&◌, ltb,
  leb, ◌==◌, arith, ℕ_discrete,
}
use aar.Base.Int.{pos}
use aar.Libc.{stringcopy}
use aar.Libc.Compare.{Length}
use aar.Libc.Strings.{HasLength, copied, stringcopy-copied}
use aar.Tfs.{put_word, entry_inode, characters, to_char, beside, copy_name}
use aar.Tfs.Directory.Lookup.{Named}
use aar.Tfs.Volume.Words.{word-put_word}

to_char-zero : (b : ℕ) → to_char b ≡ pos 0 → b ≡ 0
to_char-zero b e = ground (arith, e)

name-HasLength :
    (target filename : ℕ → ℕ) (n : ℕ)
    → n ≤ 15
    → Length (characters filename) n
    → HasLength (beside target filename) 0x100000000 15 n
name-HasLength target filename n h l = record {
  fits = h;
  nonzero = λ j k e.
      let far : ltb (0x100000000 + j) 0x100000000 ≡ false = ground arith in
      let at : 0x100000000 + j - 0x100000000 ≡ j = omega arith in
      l.goes_on j k (ap to_char (sym (rw far (ap filename at)) ∙ e));
  ends =
      let far : ltb (0x100000000 + n) 0x100000000 ≡ false = ground arith in
      let at : 0x100000000 + n - 0x100000000 ≡ n = omega arith in
      inr (rw far (ap filename at ∙ to_char-zero (filename n) l.stops));
}

copy_name-near :
    (t : ℕ) (target filename : ℕ → ℕ) (x : ℕ)
    → x < 0x100000000
    → copy_name t 0 target filename x
      ≡ (stringcopy t 0x100000000 (pos 16) (beside target filename)).1 x
unfolding copy_name
copy_name-near t target filename x h =
    let near : ltb x 0x100000000 ≡ true = ground arith in rw near refl

copy_name-copied :
    (t n : ℕ) (target filename : ℕ → ℕ) (x : ℕ)
    → n ≤ 15
    → t + 16 ≤ 0x100000000
    → x < 0x100000000
    → Length (characters filename) n
    → copy_name t 0 target filename x ≡ copied n t 0x100000000 (beside target filename) x
copy_name-copied t n target filename x h k q l =
    copy_name-near t target filename x q
    ∙ stringcopy-copied 15 n t 0x100000000 (beside target filename) x (inl (omega arith))
        (name-HasLength target filename n h l)

module _ (target filename : ℕ → ℕ) (n t : ℕ) (h : n ≤ 15) (low : t + 16 ≤ 512)
    (l : Length (characters filename) n) where
  name_copied : (j : ℕ) → j ≤ n → copy_name t 0 target filename (t + j) ≡ filename j
  name_copied j k =
      let e = copy_name-copied t n target filename (t + j) h (omega arith) (omega arith) l in
      elim (ℕ_discrete j n) [
        | yes d ↦
            let past : (leb t (t + j) && ltb (t + j) (t + n)) ≡ false = ground (arith, d) in
            let end : (t + j == t + n) ≡ true = ground (arith, d) in
            let nul : filename j ≡ 0 =
              to_char-zero (filename j) (ap (λ i. to_char (filename i)) d ∙ l.stops) in
            e ∙ rw (past, end) (sym nul)
        | no d ↦
            let inside : (leb t (t + j) && ltb (t + j) (t + n)) ≡ true = ground (arith, d) in
            let far : ltb (0x100000000 + (t + j - t)) 0x100000000 ≡ false = ground arith in
            let at : 0x100000000 + (t + j - t) - 0x100000000 ≡ j = omega arith in
            e ∙ rw (inside, far) (ap filename at)
      ]

  others_kept :
      (x : ℕ) → x < 512 → (x < t) ⊎ (t + 15 < x) → copy_name t 0 target filename x ≡ target x
  others_kept x k side =
      let e = copy_name-copied t n target filename x h (omega arith) (omega arith) l in
      let out : (leb t x && ltb x (t + n)) ≡ false = ground (arith, side) in
      let not_end : (x == t + n) ≡ false = ground (arith, side) in
      let near : ltb x 0x100000000 ≡ true = ground arith in e ∙ rw (out, not_end, near) refl

-- The directory with the entry `i` filled.
abbrev pub filled : (ℕ → ℕ) → (ℕ → ℕ) → ℕ → ℕ → ℕ → ℕ
filled md filename i p = put_word (copy_name (20 * i + 4) 0 md filename) (5 * i) p

module _ (md filename : ℕ → ℕ) (n i p : ℕ) (h : n ≤ 15) (k : i < 25)
    (l : Length (characters filename) n) where
  pub filled-Named : Named (filled md filename i p) filename n i
  filled-Named j q =
      let outside : ((20 * i + 4 + j) / 4 == 5 * i) ≡ false = ground arith in
      ap to_char (rw outside (name_copied md filename n (20 * i + 4) h (omega arith) l j q))

  -- The bytes of the other entries stay.
  pub filled-other :
      (x : ℕ) → x < 500 → (x < 20 * i) ⊎ (20 * i + 19 < x) → filled md filename i p x ≡ md x
  filled-other x q side =
      let outside : (x / 4 == 5 * i) ≡ false = ground (arith, side) in
      rw outside (
        others_kept md filename n (20 * i + 4) h (omega arith) l x (omega arith)
          (ground (arith, side)))

  pub filled-inode : p < 4096 → entry_inode (filled md filename i p) i ≡ p
  filled-inode q = omega (arith, word-put_word (copy_name (20 * i + 4) 0 md filename) (5 * i) p)
