-- ===== src/Tfs/Create/Allocates.antt =====
-- The inode and the blocks of a new file in tfs_create of fs/tfs.c.
use aar.Base.{
  ℕ, zero, suc, ◌+◌, ◌-◌, ◌*◌, ◌%◌, ◌^◌, ◌<◌, ◌≤◌, ◌≡◌, ◌≢◌, refl, sym, ap, subst, ◌∙◌, false, done,
  ◌==◌, ==_ne, ==_self, arith, if◌then◌else◌,
}
use aar.Base.Int.{ℤ, pos, negsuc}
use aar.Tfs.{Tfs, tfs_blocks_max, vfs_error, put_word, word, block, filesize}
use aar.Tfs.Exec.{goes, returned, ◌>>=◌, modify, pure, return}
use aar.Tfs.Volume.{find_block}
use aar.Tfs.Volume.Words.{word-put_word, word-put_other}
use aar.Tfs.Volume.Allocate.{bat_bit, taken, disk_full, find_block-Takes}
use aar.Tfs.Create.{num_blocks, set_inode_word, take_blocks, clear_blocks, allocate}
use aar.Tfs.Create.Blocks.{Chosen, all_taken, none_left, take_blocks-TakesBlocks}

-- The inode block `p` and the first `m` blocks of the inode are different blocks below `total` that are
-- free in `bat`.
pub record NewFile (bat inode : ℕ → ℕ) (p size m total : ℕ) : Type 0 where
  pub sized : filesize inode ≡ size
  pub inside : p < total
  pub free : bat_bit bat p ≡ 0
  pub within : (j : ℕ) → j < m → block inode j < total
  pub all_free : (j : ℕ) → j < m → bat_bit bat (block inode j) ≡ 0
  pub apart : (j j' : ℕ) → j < m → j' < m → j ≢ j' → block inode j ≢ block inode j'
  pub beside : (j : ℕ) → j < m → block inode j ≢ p

clear_blocks-keeps :
    (n i : ℕ) (s : Tfs)
    → (inode : ℕ → ℕ) × (clear_blocks n i s ≡ record s { buffer_inode = inode })
      × ((k : ℕ) → k ≤ i → word inode k ≡ word s.buffer_inode k)
unfolding clear_blocks
clear_blocks-keeps zero i s = (s.buffer_inode, refl, λ k h. refl)
clear_blocks-keeps (suc n) i s =
    let (inode, e, same) = clear_blocks-keeps n (i + 1) (set_inode_word (i + 1) 0 s) in
    (
      inode,
      e,
      λ k h. same k (omega arith) ∙ word-put_other s.buffer_inode (i + 1) k 0 (λ d. omega arith),
    )

Chosen-NewFile :
    (bat bat1 bat2 inode inode' : ℕ → ℕ) (p size m total : ℕ)
    → total ≤ 4096
    → p < total
    → bat_bit bat p ≡ 0
    → ((q : ℕ) → q < 4096 → bat_bit bat1 q ≡ (if p == q then 1 else bat_bit bat q))
    → Chosen bat1 bat2 inode size m total
    → ((k : ℕ) → k ≤ m → word inode' k ≡ word inode k)
    → NewFile bat inode' p size m total
Chosen-NewFile bat bat1 bat2 inode inode' p size m total h l free new c same =
    let block_same : (j : ℕ) → j < m → block inode' j ≡ block inode j =
      λ j k. same (j + 1) (omega arith) in
    let low : (j : ℕ) → j < m → block inode j < 4096 = λ j k. omega (arith, c.within j k) in
    let taken_bit : bat_bit bat1 p ≡ 1 =
      new p (omega arith) ∙ ap (λ t. if t then 1 else bat_bit bat p) (==_self p) in
    let differs : (j : ℕ) → j < m → block inode j ≢ p =
      λ j k e. omega (arith, c.fresh j k, taken_bit, ap (bat_bit bat1) e) in
    record {
      sized = same 0 (omega arith) ∙ c.sized;
      inside = l;
      free = free;
      within = λ j k. subst (λ t. t < total) (sym (block_same j k)) (c.within j k);
      all_free = λ j k.
          let b = block inode j in
          let other : p ≢ b = λ e. differs j k (sym e) in
          let unchanged =
            new b (low j k) ∙ ap (λ t. if t then 1 else bat_bit bat b) (==_ne p b other) in
          ap (bat_bit bat) (block_same j k) ∙ sym unchanged ∙ c.fresh j k;
      apart = λ j j' k k' d e. c.apart j j' k k' d (sym (block_same j k) ∙ e ∙ block_same j' k');
      beside = λ j k e. differs j k (sym (block_same j k) ∙ e);
    }

-- How the search ends; `md` is the directory with the inode number `p` in the entry.
pub data Allocates (s : Tfs) (size index : ℕ) : Type 0 where
  allocated :
      (p : ℕ) (inode bat : ℕ → ℕ)
      → allocate (pos size) index s
        ≡ done (
          goes tt,
          record s {
            buffer_md = put_word s.buffer_md (5 * index) p;
            buffer_inode = inode;
            buffer_bat = bat;
          },
        )
      → NewFile s.buffer_bat inode p size (num_blocks (pos size)) s.totalblocks
      → Allocates s size index
  no_space :
      (md inode bat : ℕ → ℕ)
      → allocate (pos size) index s
        ≡ done (
          returned vfs_error,
          record s { buffer_md = md; buffer_inode = inode; buffer_bat = bat },
        )
      → Allocates s size index

-- The volume when the inode block `p` is found.
abbrev with_inode : ℕ → ℕ → ℕ → (ℕ → ℕ) → Tfs → Tfs
with_inode size index p bat s =
    set_inode_word 0 size
      (record s { buffer_md = put_word s.buffer_md (5 * index) p; buffer_bat = bat })

allocate_stop :
    (size index : ℕ) (r : ℤ) (bat : ℕ → ℕ) (s : Tfs)
    → find_block s ≡ done (goes r, record s { buffer_bat = bat })
    → r ≡ negsuc 0
    → allocate (pos size) index s
      ≡ done (
        returned vfs_error,
        record s { buffer_md = put_word s.buffer_md (5 * index) 0xffffffff; buffer_bat = bat },
      )
unfolding allocate ◌>>=◌ modify pure return
allocate_stop size index r bat s e f = rw (e, f) refl

module _ (size index p : ℕ) (r : ℤ) (bat : ℕ → ℕ) (s : Tfs)
    (e : find_block s ≡ done (goes r, record s { buffer_bat = bat })) (f : r ≡ pos p) (h : p < 4096)
    (l : size < 4294967296) where
  allocate_go :
      (s2 : Tfs)
      → take_blocks (num_blocks (pos size)) 0 (with_inode size index p bat s) ≡ done (goes tt, s2)
      → allocate (pos size) index s
        ≡ done (
          goes tt,
          clear_blocks (tfs_blocks_max - num_blocks (pos size)) (num_blocks (pos size)) s2,
        )
  unfolding allocate ◌>>=◌ modify pure return
  allocate_go s2 g =
      let small : p % 2 ^ 32 ≡ p = omega arith in
      let fits : size % 2 ^ 32 ≡ size = omega arith in
      let valid : (p == 0xffffffff) ≡ false = ground arith in rw (e, f, small, valid, fits, g) refl

  allocate_full :
      (s2 : Tfs)
      → take_blocks (num_blocks (pos size)) 0 (with_inode size index p bat s)
        ≡ done (returned vfs_error, s2)
      → allocate (pos size) index s ≡ done (returned vfs_error, s2)
  unfolding allocate ◌>>=◌ modify pure return
  allocate_full s2 g =
      let small : p % 2 ^ 32 ≡ p = omega arith in
      let fits : size % 2 ^ 32 ≡ size = omega arith in
      let valid : (p == 0xffffffff) ≡ false = ground arith in rw (e, f, small, valid, fits, g) refl

Chosen-start :
    (bat inode : ℕ → ℕ) (size total : ℕ)
    → size < 4294967296
    → Chosen bat bat (put_word inode 0 size) size 0 total
Chosen-start bat inode size total l = record {
  sized = omega (arith, word-put_word inode 0 size);
  within = λ j k. absurd (omega arith);
  fresh = λ j k. absurd (omega arith);
  marked = λ j k. absurd (omega arith);
  apart = λ j j' k k' d e. absurd (omega arith);
  keeps = λ q k e. e;
}

pub allocate-Allocates :
    (size index : ℕ) (s : Tfs) → s.totalblocks ≤ 4096 → size < 4294967296 → Allocates s size index
allocate-Allocates size index s h l =
    let (r, bat, e, t) = find_block-Takes s h in
    elim t [
      | disk_full g ↦
          no_space (put_word s.buffer_md (5 * index) 0xffffffff) s.buffer_inode bat
            (allocate_stop size index r bat s e g)
      | taken p g q free new ↦
          let m = num_blocks (pos size) in
          let low : p < 4096 = omega arith in
          let s1 = with_inode size index p bat s in
          let start = Chosen-start bat s.buffer_inode size s.totalblocks l in
          elim (take_blocks-TakesBlocks m 0 size m bat s1 h (omega arith) start) [
            | none_left inode bat' k ↦ no_space s1.buffer_md inode bat' (
                allocate_full size index p r bat s e g low l
                  (record s1 { buffer_inode = inode; buffer_bat = bat' }) k)
            | all_taken inode bat' k c ↦
                let s2 = record s1 { buffer_inode = inode; buffer_bat = bat' } in
                let (inode', cleared, same) = clear_blocks-keeps (tfs_blocks_max - m) m s2 in
                allocated p inode' bat'
                  (allocate_go size index p r bat s e g low l s2 k
                    ∙ ap (λ t. done (goes tt, t)) cleared)
                  (Chosen-NewFile s.buffer_bat bat bat' inode inode' p size m s.totalblocks h q free
                    new c same)
          ]
    ]
