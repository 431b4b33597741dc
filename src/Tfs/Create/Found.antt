-- ===== src/Tfs/Create/Found.antt =====
-- tfs_open of fs/tfs.c after an entry of the directory is filled.
use mathlib.Core.Bool.{true≢false}
use aar.Base.{
  ℕ, ◌+◌, ◌*◌, ◌<◌, ◌≤◌, ◌≡◌, ◌≢◌, refl, sym, ap, subst, ◌∙◌, ◌⊎◌, inl, inr, true, Option, some,
  ltb, arith, Bool-cases, ℕ_discrete, Returns, Returns-mono,
}
use aar.Base.Int.{ℤ, pos}
use aar.Libc.Compare.{Length}
use aar.Tfs.{Tfs, tfs_directory_block, word, characters, to_char}
use aar.Tfs.Exec.{sector}
use aar.Tfs.Directory.{inode_of, tfs_open}
use aar.Tfs.Directory.Lookup.{
  Named, NoneNamed, Lookup, first, nowhere, Opens, unread, looked, tfs_open-Opens,
}
use aar.Tfs.Transfer.File.{NoFailures}
use aar.Tfs.Create.Entry.{filled, filled-Named, filled-other, filled-inode}

-- Directories with the same bytes.
abbrev SameBytes : (ℕ → ℕ) → (ℕ → ℕ) → Type 0
SameBytes a b = (x : ℕ) → x < 500 → a x ≡ b x

Named-agree :
    (a b filename : ℕ → ℕ) (n i : ℕ)
    → n ≤ 15
    → i < 25
    → ((j : ℕ) → j ≤ n → a (20 * i + 4 + j) ≡ b (20 * i + 4 + j))
    → Named a filename n i
    → Named b filename n i
Named-agree a b filename n i h k e named j l = ap to_char (sym (e j l)) ∙ named j l

word-agree :
    (a b : ℕ → ℕ) (i : ℕ) → ((c : ℕ) → c < 4 → a (4 * i + c) ≡ b (4 * i + c)) → word a i ≡ word b i
unfolding word
word-agree a b i h =
    let first : 4 * i + 0 ≡ 4 * i = omega arith in
    let e0 : a (4 * i) ≡ b (4 * i) = subst (λ t. a t ≡ b t) first (h 0 (omega arith)) in
    rw (e0, h 1 (omega arith), h 2 (omega arith), h 3 (omega arith)) refl

module _ (md filename : ℕ → ℕ) (n i p : ℕ) (h : n ≤ 15) (k : i < 25) (q : p < 4096)
    (l : Length (characters filename) n) (unused : NoneNamed md filename n 25) (new : ℕ → ℕ)
    (same : SameBytes new (filled md filename i p)) where
  only_here : (j : ℕ) → j < 25 → Named new filename n j → i ≡ j
  only_here j g named = elim (ℕ_discrete i j) [
    | yes d ↦ d
    | no d ↦ absurd (
        unused j g (
          Named-agree new md filename n j h g
            (λ c r.
              same (20 * j + 4 + c) (omega arith)
              ∙ filled-other md filename n i p h k l (20 * j + 4 + c) (omega arith) (apart c r d))
            named))
  ]
    where
      apart : (c : ℕ) → c ≤ n → i ≢ j → (20 * j + 4 + c < 20 * i) ⊎ (20 * i + 19 < 20 * j + 4 + c)
      apart c r d = elim (Bool-cases (ltb j i)) [
        | inl e ↦ inl (ground arith)
        | inr e ↦ inr (ground (arith, d))
      ]

  new-Named : Named new filename n i
  new-Named =
      Named-agree (filled md filename i p) new filename n i h k
        (λ j r. sym (same (20 * i + 4 + j) (omega arith))) (filled-Named md filename n i p h k l)

  new-inode : inode_of (some i) new ≡ pos p
  new-inode =
      let e : word new (5 * i) ≡ p =
        word-agree new (filled md filename i p) (5 * i)
          (λ c r. same (4 * (5 * i) + c) (omega arith))
        ∙ filled-inode md filename n i p h k l q in
      let small : ltb p 0x80000000 ≡ true = ground arith in rw (e, small) refl

  found_here : (r : Option ℕ) → Lookup new filename n 25 r → inode_of r new ≡ pos p
  found_here r (nowhere e no_one) = absurd (no_one i k new-Named)
  found_here r (first j g e named before) =
      ap (λ t. inode_of t new) e
      ∙ ap (λ t. inode_of (some t) new) (sym (only_here j g named))
      ∙ new-inode

-- On a volume whose directory block has the filled entry, tfs_open gives its inode number.
pub tfs_open-filled :
    (md filename : ℕ → ℕ) (n i p fuel : ℕ) (s : Tfs)
    → n ≤ 15
    → i < 25
    → p < 4096
    → Length (characters filename) n
    → NoneNamed md filename n 25
    → ((k : ℕ) → k < 512 → s.disk (sector s tfs_directory_block) k ≡ filled md filename i p k)
    → NoFailures s
    → n < fuel
    → Returns (tfs_open fuel filename s) (λ r. r.0 ≡ pos p)
tfs_open-filled md filename n i p fuel s h k q l unused stored ok enough =
    Returns-mono (tfs_open fuel filename s) (Opens s filename n) (λ r. r.0 ≡ pos p)
      (tfs_open-Opens fuel n filename s enough l) opens
  where
    opens : (r : ℤ × Tfs) → Opens s filename n r → r.0 ≡ pos p
    opens r (unread e g) =
        absurd (true≢false (sym e ∙ ok s.requests (sector s tfs_directory_block)))
    opens r (looked new found e g lookup f) =
        let same : SameBytes new (filled md filename i p) = λ x b.
          let near : ltb x 512 ≡ true = ground arith in
          ap (λ t. t x) g ∙ rw near (stored x (omega arith)) in
        ap (λ (t : ℤ × Tfs). t.0) f
        ∙ found_here md filename n i p h k q l unused new same found lookup
