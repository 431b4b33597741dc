-- ===== src/Tfs/Transfer/File.antt =====
-- A file of fs/tfs.c as the bytes that its inode and its blocks hold.
use Prim.Native.Nat.{min}
use aar.Base.{
  done, ltb, ◌∙◌, refl, ℕ, ◌+◌, ◌-◌, ◌*◌, ◌/◌, ◌%◌, ◌<◌, ◌≤◌, ◌≡◌, ◌≢◌, ◌==◌, true, false,
  if◌then◌else◌, suc, inl, inr, arith, Bool-cases,
}
use aar.Base.Int.{pos}
use aar.Tfs.{word, Tfs, tfs_block_size, filesize, block}
use aar.Tfs.Exec.{goes, ◌>>=◌, pure, return, gets, read_block, request, sector, fill}
use aar.Tfs.Transfer.{bad_fileid, bad_offset, bytes_at}
use aar.Tfs.Transfer.Copy.{word-fill}

-- The device answers every request.
abbrev pub NoFailures : Tfs → Type 0
NoFailures s = (n b : ℕ) → s.fails n b ≡ false

-- The sector of the block `b` of the file whose inode is given.
abbrev pub data_sector : Tfs → (ℕ → ℕ) → ℕ → ℕ
data_sector s inode b = sector s (block inode b)

-- Its first `m` blocks hold the bytes `c`.
abbrev pub Holds : Tfs → (ℕ → ℕ) → ℕ → (ℕ → ℕ) → Type 0
Holds s inode m c = (b j : ℕ) → b < m → j < 512 → s.disk (data_sector s inode b) j ≡ c (512 * b + j)

abbrev pub blocks_for : ℕ → ℕ
blocks_for size = (size + 511) / 512

-- The content of the block that holds the inode.
abbrev pub inode_at : Tfs → ℕ → ℕ → ℕ
inode_at s fileid = s.disk (sector s fileid)

-- The byte `x` of the file.
abbrev pub content : Tfs → ℕ → ℕ → ℕ
content s fileid x = s.disk (data_sector s (inode_at s fileid) (x / 512)) (x % 512)

-- The block `fileid` is the inode of a file of `size` bytes: no more than its table has room for, and
-- its blocks are different from each other and from the inode.
pub record IsFile (s : Tfs) (fileid size : ℕ) : Type 0 where
  pub valid : bad_fileid (pos fileid) s ≡ false
  pub sized : filesize (inode_at s fileid) ≡ size
  pub fits : size ≤ 65024
  pub apart :
      (b b' : ℕ)
      → b < blocks_for size
      → b' < blocks_for size
      → b ≢ b'
      → data_sector s (inode_at s fileid) b ≢ data_sector s (inode_at s fileid) b'
  pub beside_inode :
      (b : ℕ) → b < blocks_for size → sector s fileid ≢ data_sector s (inode_at s fileid) b

-- A transfer of `n` bytes from the place `offset` on, of which `moved` are done; its blocks from `b1`
-- to `b2` are left, `k` of them, and the file has `m` blocks.
pub record Span (k b1 b2 n moved offset m : ℕ) : Type 0 where
  pub starts : 0 < k → offset + moved ≡ 512 * b1
  pub ended : k ≡ 0 → moved ≡ n
  pub counts : b2 + 1 ≡ b1 + k
  pub inside : b2 < m
  pub small : m ≤ 127
  pub short : n ≤ 65024
  pub moves : moved ≤ n
  pub reaches : 512 * b2 ≤ offset + n
  pub ends_in : offset + n ≤ 512 * (b2 + 1)

-- The bytes that the next block takes.
abbrev pub step_of : ℕ → ℕ → ℕ → ℕ → ℕ
step_of b1 b2 n moved = if b1 == b2 then n - moved else tfs_block_size

Span-last :
    (k b1 b2 n moved offset m : ℕ)
    → (b1 == b2) ≡ true
    → Span (suc k) b1 b2 n moved offset m
    → Span k (b1 + 1) b2 n (moved + (n - moved)) offset m
Span-last k b1 b2 n moved offset m e x = record {
  starts = λ p. absurd (ground (arith, x.counts));
  ended = λ z. omega (arith, x.moves);
  counts = omega (arith, x.counts);
  inside = x.inside;
  small = x.small;
  short = x.short;
  moves = omega (arith, x.moves);
  reaches = x.reaches;
  ends_in = x.ends_in;
}

Span-whole :
    (k b1 b2 n moved offset m : ℕ)
    → (b1 == b2) ≡ false
    → Span (suc k) b1 b2 n moved offset m
    → Span k (b1 + 1) b2 n (moved + 512) offset m
Span-whole k b1 b2 n moved offset m e x =
    let at = x.starts (omega arith) in
    let less : b1 < b2 = ground (arith, x.counts) in
    record {
      starts = λ p. omega arith;
      ended = λ z. absurd (omega (arith, x.counts));
      counts = omega (arith, x.counts);
      inside = x.inside;
      small = x.small;
      short = x.short;
      moves = omega (arith, x.reaches);
      reaches = x.reaches;
      ends_in = x.ends_in;
    }

pub Span-next :
    (k b1 b2 n moved offset m : ℕ)
    → Span (suc k) b1 b2 n moved offset m
    → Span k (b1 + 1) b2 n (moved + step_of b1 b2 n moved) offset m
Span-next k b1 b2 n moved offset m x = elim (Bool-cases (b1 == b2)) [
  | inl e ↦ rw e (Span-last k b1 b2 n moved offset m e x)
  | inr e ↦ rw e (Span-whole k b1 b2 n moved offset m e x)
]

-- A step takes no more than a block.
pub step_of-bound :
    (k b1 b2 n moved offset m : ℕ)
    → Span (suc k) b1 b2 n moved offset m
    → step_of b1 b2 n moved ≤ 512
step_of-bound k b1 b2 n moved offset m x =
    let at = x.starts (omega arith) in ground (arith, x.ends_in)

-- The bytes that the first block takes.
abbrev pub first_step : ℕ → ℕ → ℕ
first_step offset n = min (tfs_block_size - offset % tfs_block_size) n

pub first_step-bound : (offset n : ℕ) → offset % 512 + first_step offset n ≤ 512
first_step-bound offset n = omega arith

pub Span-first :
    (offset n size : ℕ)
    → 0 < n
    → offset + n ≤ size
    → size ≤ 65024
    → Span
        ((offset + n - 1) / 512 - offset / 512)
        (offset / 512 + 1)
        ((offset + n - 1) / 512)
        n
        (first_step offset n)
        offset
        (blocks_for size)
Span-first offset n size p l q = record {
  starts = λ k. omega arith;
  ended = λ k. omega arith;
  counts = omega arith;
  inside = omega arith;
  small = omega arith;
  short = omega arith;
  moves = omega arith;
  reaches = omega arith;
  ends_in = omega arith;
}

-- The volume with the inode in its buffer.
abbrev pub inode_loaded : ℕ → Tfs → Tfs
inode_loaded fileid s = record (request s) {
  buffer_inode = fill (inode_at s fileid) s.buffer_inode;
}

pub bytes_at-IsFile :
    (fileid n offset size : ℕ) (s : Tfs)
    → NoFailures s
    → IsFile s fileid size
    → offset ≤ size
    → bytes_at (pos fileid) n (pos offset) s
      ≡ done (goes (min n (size - offset)), inode_loaded fileid s)
unfolding bytes_at read_block ◌>>=◌ gets pure return
bytes_at-IsFile fileid n offset size s ok file h =
    let e = ok s.requests (sector s fileid) in
    let f : word (fill (inode_at s fileid) s.buffer_inode) 0 ≡ size =
      word-fill (inode_at s fileid) s.buffer_inode 0 (omega arith) ∙ file.sized in
    let short : ltb size 0x80000000 ≡ true = ground (arith, file.fits) in
    let inside : bad_offset (pos offset) (inode_loaded fileid s) ≡ false =
      rw (f, short) (ground arith) in
    rw (file.valid, e, inside, f, short) refl

pub Holds-content :
    (fileid size : ℕ) (s : Tfs)
    → IsFile s fileid size
    → Holds
        (inode_loaded fileid s)
        (inode_loaded fileid s).buffer_inode
        (blocks_for size)
        (content s fileid)
Holds-content fileid size s file b j l k =
    let e = word-fill (inode_at s fileid) s.buffer_inode (b + 1) (omega (arith, file.fits)) in
    let block_at : (512 * b + j) / 512 ≡ b = omega arith in
    let byte_at : (512 * b + j) % 512 ≡ j = omega arith in rw (e, content, block_at, byte_at) refl
