-- ===== src/Tfs/Create/Stores.antt =====
-- What tfs_create of fs/tfs.c writes to the device.
use aar.Base.{
  ℕ, zero, suc, ◌+◌, ◌<◌, ◌≤◌, ◌≡◌, ◌≢◌, refl, sym, ap, ◌∙◌, true, done, ltb, arith, ℕ_discrete,
  update, update_self, update_ne,
}
use aar.Base.Int.{pos}
use aar.Libc.{memoryset}
use aar.Tfs.{Tfs, tfs_allocation_block, tfs_directory_block, vfs_ok, word, block, entry_inode}
use aar.Tfs.Exec.{goes, ◌>>=◌, gets, modify, pure, write_block, fill, request, sector}
use aar.Tfs.Transfer.File.{NoFailures, data_sector}
use aar.Tfs.Transfer.Copy.{word-fill}
use aar.Libc.Memory.{memoryset-zero}
use aar.Tfs.Create.{num_blocks, zero_blocks, store}

-- The volume with a buffer written to a block.
abbrev pub put_block : (ℕ → ℕ) → ℕ → Tfs → Tfs
put_block buf b s = record (request s) {
  disk = update s.disk (sector s b) (fill buf (s.disk (sector s b)));
}

-- The blocks of the inode from `i` on, `n` of them, are zero.
record Zeroed (n i : ℕ) (s s' : Tfs) : Type 0 where
  pub zeros :
      (j k : ℕ) → i ≤ j → j < i + n → k < 512 → s'.disk (data_sector s s.buffer_inode j) k ≡ 0
  pub elsewhere :
      (x : ℕ)
      → ((j : ℕ) → i ≤ j → j < i + n → data_sector s s.buffer_inode j ≢ x)
      → s'.disk x ≡ s.disk x
  pub startblock : s'.startblock ≡ s.startblock
  pub totalblocks : s'.totalblocks ≡ s.totalblocks
  pub fails : s'.fails ≡ s.fails

zero_step :
    (n i : ℕ) (s : Tfs)
    → NoFailures s
    → zero_blocks (suc n) i s
      ≡ zero_blocks n (i + 1) (put_block s.buffer_bat (block s.buffer_inode i) s)
unfolding zero_blocks write_block ◌>>=◌ gets
zero_step n i s ok = let e = ok s.requests (data_sector s s.buffer_inode i) in rw e refl

zero_blocks-Zeroed :
    (n i : ℕ) (s : Tfs)
    → NoFailures s
    → ((k : ℕ) → k < 512 → s.buffer_bat k ≡ 0)
    → ((j j' : ℕ)
        → j < i + n
        → j' < i + n
        → j ≢ j'
        → data_sector s s.buffer_inode j ≢ data_sector s s.buffer_inode j')
    → (s' : Tfs) × (zero_blocks n i s ≡ done (goes tt, s')) × Zeroed n i s s'
unfolding zero_blocks pure
zero_blocks-Zeroed zero i s ok z apart = (
  s,
  refl,
  record {
    zeros = λ j k h l q. absurd (omega arith);
    elsewhere = λ x ne. refl;
    startblock = refl;
    totalblocks = refl;
    fails = refl;
  },
)
zero_blocks-Zeroed (suc n) i s ok z apart =
    let x = data_sector s s.buffer_inode i in
    let s1 = put_block s.buffer_bat (block s.buffer_inode i) s in
    let (s', e, r) =
      zero_blocks-Zeroed n (i + 1) s1 ok z
        (λ j j' h l d. apart j j' (omega arith) (omega arith) d) in
    (
      s',
      zero_step n i s ok ∙ e,
      record {
        zeros = λ j k h l q. elim (ℕ_discrete i j) [
          | yes d ↦
              let kept =
                r.elsewhere x
                  (λ j' h' l' y. apart j' i (omega arith) (omega arith) (λ t. omega arith) y) in
              let here : s1.disk x k ≡ s.buffer_bat k =
                let near : ltb k 512 ≡ true = ground arith in
                ap (λ t. t k) (update_self s.disk x (fill s.buffer_bat (s.disk x)))
                ∙ rw near refl in
              ap (λ t. s'.disk (data_sector s s.buffer_inode t) k) (sym d)
              ∙ ap (λ t. t k) kept
              ∙ here
              ∙ z k q
          | no d ↦ r.zeros j k (omega arith) (omega arith) q
        ];
        elsewhere = λ y ne.
            r.elsewhere y (λ j h l. ne j (omega arith) (omega arith))
            ∙ update_ne s.disk x y (fill s.buffer_bat (s.disk x))
                (ne i (omega arith) (omega arith));
        startblock = r.startblock;
        totalblocks = r.totalblocks;
        fails = r.fails;
      },
    )

-- The volume `s'` is `s` with the inode, and its first `m` blocks as zeros, on the device.
pub record Stored (m p : ℕ) (s s' : Tfs) : Type 0 where
  pub inode : (i : ℕ) → i < 128 → word (s'.disk (sector s p)) i ≡ word s.buffer_inode i
  pub directory : (k : ℕ) → k < 512 → s'.disk (sector s tfs_directory_block) k ≡ s.buffer_md k
  pub zeros : (j k : ℕ) → j < m → k < 512 → s'.disk (data_sector s s.buffer_inode j) k ≡ 0
  pub elsewhere :
      (x : ℕ)
      → sector s tfs_allocation_block ≢ x
      → sector s tfs_directory_block ≢ x
      → sector s p ≢ x
      → ((j : ℕ) → j < m → data_sector s s.buffer_inode j ≢ x)
      → s'.disk x ≡ s.disk x
  pub startblock : s'.startblock ≡ s.startblock
  pub totalblocks : s'.totalblocks ≡ s.totalblocks
  pub fails : s'.fails ≡ s.fails

abbrev before_zeros : ℕ → Tfs → Tfs
before_zeros p s =
    let s1 = put_block s.buffer_bat tfs_allocation_block s in
    let s2 = put_block s.buffer_md tfs_directory_block s1 in
    let s3 = put_block s.buffer_inode p s2 in
    record s3 { buffer_bat = memoryset 0 0 (pos 512) s.buffer_bat }

store_step :
    (size index : ℕ) (s s' : Tfs)
    → NoFailures s
    → zero_blocks (num_blocks (pos size)) 0 (before_zeros (entry_inode s.buffer_md index) s)
      ≡ done (goes tt, s')
    → store (pos size) index s ≡ done (goes vfs_ok, s')
unfolding store write_block ◌>>=◌ gets modify pure
store_step size index s s' ok e =
    let a = ok s.requests (sector s tfs_allocation_block) in
    let b = ok (s.requests + 1) (sector s tfs_directory_block) in
    let c = ok (s.requests + 1 + 1) (sector s (entry_inode s.buffer_md index)) in
    rw (a, b, c, e) refl

pub store-Stored :
    (size index : ℕ) (s : Tfs)
    → NoFailures s
    → ((j j' : ℕ)
        → j < num_blocks (pos size)
        → j' < num_blocks (pos size)
        → j ≢ j'
        → data_sector s s.buffer_inode j ≢ data_sector s s.buffer_inode j')
    → ((j : ℕ)
        → j < num_blocks (pos size)
        → data_sector s s.buffer_inode j ≢ sector s (entry_inode s.buffer_md index))
    → sector s (entry_inode s.buffer_md index) ≢ sector s tfs_directory_block
    → ((j : ℕ)
        → j < num_blocks (pos size)
        → data_sector s s.buffer_inode j ≢ sector s tfs_directory_block)
    → (s' : Tfs) × (store (pos size) index s ≡ done (goes vfs_ok, s'))
      × Stored (num_blocks (pos size)) (entry_inode s.buffer_md index) s s'
store-Stored size index s ok apart beside dir_inode dir_blocks =
    let m = num_blocks (pos size) in
    let p = entry_inode s.buffer_md index in
    let s1 = put_block s.buffer_bat tfs_allocation_block s in
    let s2 = put_block s.buffer_md tfs_directory_block s1 in
    let s3 = before_zeros p s in
    let empty : (k : ℕ) → k < 512 → s3.buffer_bat k ≡ 0 =
      λ k h. memoryset-zero 512 s.buffer_bat k h in
    let (s', e, r) =
      zero_blocks-Zeroed m 0 s3 ok empty (λ j j' h l d. apart j j' (omega arith) (omega arith) d) in
    (
      s',
      store_step size index s s' ok e,
      record {
        inode = λ i h.
            let kept = r.elsewhere (sector s p) (λ j l q. beside j (omega arith)) in
            let here =
              update_self s2.disk (sector s p) (fill s.buffer_inode (s2.disk (sector s p))) in
            ap (λ t. word t i) (kept ∙ here) ∙ word-fill s.buffer_inode (s2.disk (sector s p)) i h;
        directory = λ k h.
            let d = sector s tfs_directory_block in
            let near : ltb k 512 ≡ true = ground arith in
            let kept = r.elsewhere d (λ j l q. dir_blocks j (omega arith)) in
            let old =
              update_ne s2.disk (sector s p) d (fill s.buffer_inode (s2.disk (sector s p)))
                dir_inode in
            let here = update_self s1.disk d (fill s.buffer_md (s1.disk d)) in
            ap (λ t. t k) (kept ∙ old ∙ here) ∙ rw near refl;
        zeros = λ j k h l. r.zeros j k (omega arith) (omega arith) l;
        elsewhere = λ x a b c d.
            r.elsewhere x (λ j h l. d j (omega arith))
            ∙ update_ne s2.disk (sector s p) x (fill s.buffer_inode (s2.disk (sector s p))) c
            ∙ update_ne s1.disk (sector s tfs_directory_block) x
                (fill s.buffer_md (s1.disk (sector s tfs_directory_block))) b
            ∙ update_ne s.disk (sector s tfs_allocation_block) x
                (fill s.buffer_bat (s.disk (sector s tfs_allocation_block))) a;
        startblock = r.startblock;
        totalblocks = r.totalblocks;
        fails = r.fails;
      },
    )
