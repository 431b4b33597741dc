-- ===== src/Tfs/Create/Blocks.antt =====
-- The blocks that tfs_create of fs/tfs.c finds for a new file.
use aar.Base.{
  ℕ, zero, suc, ◌+◌, ◌%◌, ◌^◌, ◌<◌, ◌≤◌, ◌≡◌, ◌≢◌, refl, sym, ap, subst, ◌∙◌, false, done, ◌==◌,
  ==_ne, ==_self, arith, if◌then◌else◌, ℕ_discrete,
}
use aar.Base.Int.{ℤ, pos, negsuc}
use aar.Bitmap.Update.{get_bit-bound}
use aar.Tfs.{Tfs, vfs_error, put_word, word, block, filesize}
use aar.Tfs.Exec.{goes, returned, ◌>>=◌, modify, pure, return}
use aar.Tfs.Volume.{find_block}
use aar.Tfs.Volume.Words.{word-put_word, word-put_other}
use aar.Tfs.Volume.Allocate.{bat_bit, taken, disk_full, find_block-Takes}
use aar.Tfs.Create.{set_inode_word, take_blocks}

-- The first `m` blocks of the inode are different blocks below `total` that are free in `base`, and
-- `bat` marks them and whatever `base` marks. The inode has the size.
pub record Chosen (base bat inode : ℕ → ℕ) (size m total : ℕ) : Type 0 where
  pub sized : filesize inode ≡ size
  pub within : (j : ℕ) → j < m → block inode j < total
  pub fresh : (j : ℕ) → j < m → bat_bit base (block inode j) ≡ 0
  pub marked : (j : ℕ) → j < m → bat_bit bat (block inode j) ≡ 1
  pub apart : (j j' : ℕ) → j < m → j' < m → j ≢ j' → block inode j ≢ block inode j'
  pub keeps : (q : ℕ) → q < 4096 → bat_bit base q ≡ 1 → bat_bit bat q ≡ 1

block-new : (inode : ℕ → ℕ) (i p : ℕ) → p < 4096 → block (put_word inode (i + 1) p) i ≡ p
block-new inode i p h = omega (arith, word-put_word inode (i + 1) p)

block-old : (inode : ℕ → ℕ) (i j p : ℕ) → i ≢ j → block (put_word inode (i + 1) p) j ≡ block inode j
block-old inode i j p h = word-put_other inode (i + 1) (j + 1) p (λ e. h (omega arith))

module _ (base bat bat' inode : ℕ → ℕ) (size i total p : ℕ) (h : total ≤ 4096)
    (c : Chosen base bat inode size i total) (l : p < total) (free : bat_bit bat p ≡ 0)
    (new : (q : ℕ) → q < 4096 → bat_bit bat' q ≡ (if p == q then 1 else bat_bit bat q)) where
  abbrev inode' : ℕ → ℕ
  inode' = put_word inode (i + 1) p

  at_new : block inode' i ≡ p
  at_new = block-new inode i p (omega arith)

  at_old : (j : ℕ) → j < i → block inode' j ≡ block inode j
  at_old j k = block-old inode i j p (λ e. omega arith)

  still_marked : (q : ℕ) → q < 4096 → bat_bit bat q ≡ 1 → bat_bit bat' q ≡ 1
  still_marked q k e = elim (ℕ_discrete p q) [
    | yes d ↦ new q k ∙ ap (λ t. if t then 1 else bat_bit bat q) (ap (λ t. t == q) d ∙ ==_self q)
    | no d ↦ new q k ∙ ap (λ t. if t then 1 else bat_bit bat q) (==_ne p q d) ∙ e
  ]

  -- Old and new blocks, by cases.
  by_place :
      (P : ℕ → Type 0)
      → P p
      → ((j : ℕ) → j < i → P (block inode j))
      → (j : ℕ) → j < i + 1
      → P (block inode' j)
  by_place P here before j k = elim (ℕ_discrete i j) [
    | yes d ↦ subst (λ t. P (block inode' t)) d (subst P (sym at_new) here)
    | no d ↦ subst P (sym (at_old j (omega arith))) (before j (omega arith))
  ]

  differs : (j : ℕ) → j < i → block inode j ≢ p
  differs j k e = omega (arith, c.marked j k, free, ap (bat_bit bat) e)

  at_here : (j : ℕ) → i ≡ j → block inode' j ≡ p
  at_here j d = ap (λ t. block inode' t) (sym d) ∙ at_new

  apart_next : (j j' : ℕ) → j < i + 1 → j' < i + 1 → j ≢ j' → block inode' j ≢ block inode' j'
  apart_next j j' k k' d e = elim (ℕ_discrete i j) [
    | yes x ↦ elim (ℕ_discrete i j') [
      | yes y ↦ d (sym x ∙ y)
      | no y ↦ differs j' (omega arith) (sym (at_old j' (omega arith)) ∙ sym e ∙ at_here j x)
    ]
    | no x ↦ elim (ℕ_discrete i j') [
      | yes y ↦ differs j (omega arith) (sym (at_old j (omega arith)) ∙ e ∙ at_here j' y)
      | no y ↦
          c.apart j j' (omega arith) (omega arith) d
            (sym (at_old j (omega arith)) ∙ e ∙ at_old j' (omega arith))
    ]
  ]

  was_free : bat_bit base p ≡ 0
  was_free =
      let bound = get_bit-bound (word base) p in
      elim (ℕ_discrete (bat_bit base p) 1) [
        | yes d ↦ absurd (omega (arith, c.keeps p (omega arith) d, free))
        | no d ↦ omega (arith, bound)
      ]

  Chosen-next : Chosen base bat' inode' size (i + 1) total
  Chosen-next = record {
    sized = word-put_other inode (i + 1) 0 p (λ e. omega arith) ∙ c.sized;
    within = by_place (λ t. t < total) l c.within;
    fresh = by_place (λ t. bat_bit base t ≡ 0) was_free c.fresh;
    marked =
        by_place (λ t. bat_bit bat' t ≡ 1)
          (new p (omega arith) ∙ ap (λ t. if t then 1 else bat_bit bat p) (==_self p))
          (λ j k. still_marked (block inode j) (omega (arith, c.within j k)) (c.marked j k));
    apart = apart_next;
    keeps = λ q k e. still_marked q k (c.keeps q k e);
  }

-- How the search for the blocks ends.
pub data TakesBlocks (s : Tfs) (base : ℕ → ℕ) (size m i n : ℕ) : Type 0 where
  all_taken :
      (inode bat : ℕ → ℕ)
      → take_blocks n i s ≡ done (goes tt, record s { buffer_inode = inode; buffer_bat = bat })
      → Chosen base bat inode size m s.totalblocks
      → TakesBlocks s base size m i n
  none_left :
      (inode bat : ℕ → ℕ)
      → take_blocks n i s
        ≡ done (returned vfs_error, record s { buffer_inode = inode; buffer_bat = bat })
      → TakesBlocks s base size m i n

take_step :
    (n i p : ℕ) (r : ℤ) (bat : ℕ → ℕ) (s : Tfs)
    → find_block s ≡ done (goes r, record s { buffer_bat = bat })
    → r ≡ pos p
    → p < 4096
    → take_blocks (suc n) i s
      ≡ take_blocks n (i + 1) (set_inode_word (i + 1) p (record s { buffer_bat = bat }))
unfolding take_blocks ◌>>=◌ modify pure return
take_step n i p r bat s e f h =
    let small : p % 2 ^ 32 ≡ p = omega arith in
    let valid : (p == 0xffffffff) ≡ false = ground arith in rw (e, f, small, valid) refl

take_stop :
    (n i : ℕ) (r : ℤ) (bat : ℕ → ℕ) (s : Tfs)
    → find_block s ≡ done (goes r, record s { buffer_bat = bat })
    → r ≡ negsuc 0
    → take_blocks (suc n) i s
      ≡ done (returned vfs_error, set_inode_word (i + 1) 0xffffffff (record s { buffer_bat = bat }))
unfolding take_blocks ◌>>=◌ modify pure return
take_stop n i r bat s e f = rw (e, f) refl

pub take_blocks-TakesBlocks :
    (n i size m : ℕ) (base : ℕ → ℕ) (s : Tfs)
    → s.totalblocks ≤ 4096
    → i + n ≡ m
    → Chosen base s.buffer_bat s.buffer_inode size i s.totalblocks
    → TakesBlocks s base size m i n
unfolding take_blocks pure
take_blocks-TakesBlocks zero i size m base s h e c =
    all_taken s.buffer_inode s.buffer_bat refl
      (subst (λ t. Chosen base s.buffer_bat s.buffer_inode size t s.totalblocks) (omega arith) c)
take_blocks-TakesBlocks (suc n) i size m base s h e c =
    let (r, bat, f, t) = find_block-Takes s h in
    elim t [
      | disk_full g ↦
          none_left (put_word s.buffer_inode (i + 1) 0xffffffff) bat (take_stop n i r bat s f g)
      | taken p g l free new ↦
          let s1 = set_inode_word (i + 1) p (record s { buffer_bat = bat }) in
          let c1 =
            Chosen-next base s.buffer_bat bat s.buffer_inode size i s.totalblocks p h c l free
              new in
          let step = take_step n i p r bat s f g (omega arith) in
          elim (take_blocks-TakesBlocks n (i + 1) size m base s1 h (omega arith) c1) [
            | all_taken inode' bat' k c' ↦ all_taken inode' bat' (step ∙ k) c'
            | none_left inode' bat' k ↦ none_left inode' bat' (step ∙ k)
          ]
    ]
