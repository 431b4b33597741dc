-- ===== src/Tfs/Create/Creates.antt =====
-- tfs_create of fs/tfs.c as a whole.
use aar.Base.{
  Returns, ℕ, ◌+◌, ◌*◌, ◌/◌, ◌%◌, ◌<◌, ◌≤◌, ◌≡◌, ◌≢◌, refl, sym, ap, ◌∙◌, false, some, done, arith,
}
use aar.Base.Int.{ℤ, pos}
use aar.Bitmap.Update.{get_bit-bit}
use aar.Bitmap.Bits.{bit}
use aar.Tfs.{Tfs, tfs_allocation_block, vfs_ok, vfs_error, word, block, copy_name}
use aar.Tfs.Exec.{goes, returned, ◌>>=◌, modify, read_block, fill, request, sector}
use aar.Tfs.Directory.{tfs_open}
use aar.Tfs.Volume.Allocate.{bat_bit}
use aar.Tfs.Transfer.{bad_fileid}
use aar.Tfs.Transfer.Copy.{word-fill}
use aar.Tfs.Transfer.File.{NoFailures, IsFile, content, data_sector, inode_at, blocks_for}
use aar.Tfs.Transfer.Update.{IsFile-agree}
use aar.Tfs.Create.{num_blocks, allocate, store, create_at}
use aar.Tfs.Create.Allocates.{NewFile}
use aar.Tfs.Create.Stores.{Stored}

pub num_blocks-pos : (size : ℕ) → num_blocks (pos size) ≡ blocks_for size
num_blocks-pos size = ground arith

-- Blocks of the volume lie in different sectors.
pub sector-injective :
    (s : Tfs) (b b' : ℕ)
    → s.startblock + 4096 ≤ 0x100000000
    → b < 4096
    → b' < 4096
    → sector s b ≡ sector s b'
    → b ≡ b'
sector-injective s b b' h k k' e = omega arith

pub bat_bit-fill :
    (content rest : ℕ → ℕ) (q : ℕ) → q < 4096 → bat_bit (fill content rest) q ≡ bat_bit content q
bat_bit-fill content rest q h =
    get_bit-bit (word (fill content rest)) q
    ∙ ap (λ t. bit t (q % 32)) (word-fill content rest (q / 32) (omega arith))
    ∙ sym (get_bit-bit (word content) q)

valid_fileid :
    (p : ℕ) (s : Tfs)
    → 2 ≤ p
    → p ≤ s.totalblocks
    → s.totalblocks ≤ 4096
    → bad_fileid (pos p) s ≡ false
valid_fileid p s h k l = ground arith

-- The file that is stored, in a volume `t` with the start and the size of `s`.
module _ (s s' : Tfs) (p size : ℕ) (bat : ℕ → ℕ) (small : s.totalblocks ≤ 4096)
    (room : s.startblock + 4096 ≤ 0x100000000) (fits : size ≤ 65024) (above : 2 ≤ p)
    (f : NewFile bat s.buffer_inode p size (blocks_for size) s.totalblocks)
    (w : Stored (blocks_for size) p s s') where
  abbrev moved : Tfs
  moved = record s' { startblock = s.startblock; totalblocks = s.totalblocks }

  block_stored : (b : ℕ) → b < blocks_for size → block (inode_at moved p) b ≡ block s.buffer_inode b
  block_stored b h = w.inode (b + 1) (omega (arith, fits))

  sector_stored :
      (b : ℕ)
      → b < blocks_for size
      → data_sector moved (inode_at moved p) b ≡ data_sector s s.buffer_inode b
  sector_stored b h = ap (sector s) (block_stored b h)

  moved-IsFile : IsFile moved p size
  moved-IsFile = record {
    valid = valid_fileid p moved above (omega (arith, f.inside)) small;
    sized = w.inode 0 (omega arith) ∙ f.sized;
    fits = fits;
    apart = λ b b' h h' d e. f.apart b b' h h' d (
        sector-injective s (block s.buffer_inode b) (block s.buffer_inode b') room
          (omega (arith, f.within b h, small)) (omega (arith, f.within b' h', small))
          (sym (sector_stored b h) ∙ e ∙ sector_stored b' h'));
    beside_inode = λ b h e. f.beside b h (
        sym (
          sector-injective s p (block s.buffer_inode b) room (omega (arith, f.inside, small))
            (omega (arith, f.within b h, small)) (e ∙ sector_stored b h)));
  }

  pub stored-IsFile : IsFile s' p size
  stored-IsFile = IsFile-agree p size moved s' w.startblock w.totalblocks refl moved-IsFile

  pub stored-zero : (x : ℕ) → x < size → content s' p x ≡ 0
  stored-zero x h = rw w.startblock (
      ap (λ t. s'.disk t (x % 512)) (sector_stored (x / 512) (omega arith))
      ∙ w.zeros (x / 512) (x % 512) (omega arith) (omega arith))

  -- Blocks that are in use stay, but for the two system blocks.
  pub stored-untouched :
      (q : ℕ)
      → q < 4096
      → q ≢ 1
      → q ≢ 2
      → bat_bit bat q ≡ 1
      → s'.disk (sector s q) ≡ s.disk (sector s q)
  stored-untouched q h a b used =
      w.elsewhere (sector s q) (λ e. a (sym (sector-injective s 1 q room (omega arith) h e)))
        (λ e. b (sym (sector-injective s 2 q room (omega arith) h e)))
        (λ e.
          let same = sector-injective s p q room (omega (arith, f.inside, small)) h e in
          omega (arith, f.free, used, ap (bat_bit bat) same))
        (λ j k e.
          let same =
            sector-injective s (block s.buffer_inode j) q room (omega (arith, f.within j k, small))
              h e in
          omega (arith, f.all_free j k, used, ap (bat_bit bat) same))

-- How tfs_create ends.
pub data Creates (s : Tfs) (filename : ℕ → ℕ) (n size : ℕ) (r : ℤ × Tfs) : Type 0 where
  refuses : r.0 ≡ vfs_error → r.1.disk ≡ s.disk → Creates s filename n size r
  creates :
      (p : ℕ)
      → r.0 ≡ vfs_ok
      → bat_bit (s.disk (sector s 1)) p ≡ 0
      → ((fuel : ℕ) → n < fuel → Returns (tfs_open fuel filename r.1) (λ q. q.0 ≡ pos p))
      → IsFile r.1 p size
      → ((x : ℕ) → x < size → content r.1 p x ≡ 0)
      → ((q : ℕ)
          → q < 4096
          → q ≢ 1
          → q ≢ 2
          → bat_bit (s.disk (sector s 1)) q ≡ 1
          → r.1.disk (sector s q) ≡ s.disk (sector s q))
      → Creates s filename n size r

-- The header and the two other system blocks are marked in the allocation block.
abbrev pub Reserved : Tfs → Type 0
Reserved s = (q : ℕ) → q < 3 → bat_bit (s.disk (sector s 1)) q ≡ 1

-- The volume after the name is in the entry and the allocation block is read.
abbrev pub named : ℕ → (ℕ → ℕ) → Tfs → Tfs
named index filename s =
    let s1 = record s { buffer_md = copy_name (20 * index + 4) 0 s.buffer_md filename } in
    record (request s1) { buffer_bat = fill (s.disk (sector s 1)) s.buffer_bat }

pub create_stop :
    (filename : ℕ → ℕ) (size index : ℕ) (s s' : Tfs)
    → NoFailures s
    → allocate (pos size) index (named index filename s) ≡ done (returned vfs_error, s')
    → create_at filename (pos size) (some index) s ≡ done (returned vfs_error, s')
unfolding create_at read_block ◌>>=◌ modify
create_stop filename size index s s' ok e =
    let a = ok s.requests (sector s tfs_allocation_block) in rw (a, e) refl

pub create_go :
    (filename : ℕ → ℕ) (size index : ℕ) (s s' s2 : Tfs)
    → NoFailures s
    → allocate (pos size) index (named index filename s) ≡ done (goes tt, s')
    → store (pos size) index s' ≡ done (goes vfs_ok, s2)
    → create_at filename (pos size) (some index) s ≡ done (goes vfs_ok, s2)
unfolding create_at read_block ◌>>=◌ modify
create_go filename size index s s' s2 ok e f =
    let a = ok s.requests (sector s tfs_allocation_block) in rw (a, e, f) refl
