-- ===== src/Tfs/Init.antt =====
-- tfs_init and tfs_unmount of fs/tfs.c.
use Prim.Native.Nat.{min}
use aar.Base.{ℕ, ◌+◌, ◌-◌, ◌*◌, ◌%◌, ◌^◌, Bool, not, Option, none, some, ◌==◌, if◌then◌else◌}
use aar.Base.Int.{ℤ}
use aar.Tfs.{Tfs, tfs_block_size, tfs_magic, vfs_ok, word, copy_name}
use aar.Tfs.Exec.{fill}

-- gbd_t, with the content of the blocks and which requests fail.
pub record Device : Type 0 where
  pub block_size : ℕ
  pub total_blocks : ℕ
  pub disk : ℕ → ℕ → ℕ
  pub fails : ℕ → ℕ → Bool

-- What the kernel holds for its volumes, and the requests so far.
pub record Resources : Type 0 where
  pub semaphores : ℕ
  pub pages : ℕ
  pub requests : ℕ

-- fs_t, less the pointers to the functions.
pub record Volume : Type 0 where
  pub volume_name : ℕ → ℕ
  pub internal : Tfs

-- semaphore_destroy, and physmem_freeblock.
abbrev pub give_semaphore : Resources → Resources
give_semaphore r = record r { semaphores = r.semaphores - 1 }

abbrev pub give_page : Resources → Resources
give_page r = record r { pages = r.pages - 1 }

-- The structures in the page, of which `page` is what the header block has left there: fs_t has 60
-- bytes and tfs_t has 28. `stack` is what stands in the local variable `name`.
pub mount_page : Device → ℕ → ℕ → (ℕ → ℕ) → (ℕ → ℕ) → Volume
mount_page device start requests stack page = record {
  volume_name = copy_name 0 0 (λ j. page (4 + j)) (copy_name 0 4 stack page);
  internal = record {
    startblock = start;
    totalblocks = min device.total_blocks (8 * tfs_block_size);
    disk = device.disk;
    fails = device.fails;
    requests = requests;
    buffer_inode = λ j. page (88 + j);
    buffer_bat = λ j. page (88 + tfs_block_size + j);
    buffer_md = λ j. page (88 + 2 * tfs_block_size + j);
    buffer = λ j. 0;
  };
}

-- The header block is in the page.
pub check_header : Device → ℕ → (ℕ → ℕ) → (ℕ → ℕ) → Resources → Option Volume × Resources
check_header device start stack page r =
    if not (word page 0 % 2 ^ 16 == tfs_magic)
    then (none, give_page (give_semaphore r))
    else (some (mount_page device start r.requests stack page), r)

-- `semaphore` and `memory` tell whether semaphore_create and physmem_allocblock succeed, and `page` is
-- the page that the latter gives.
pub tfs_init : Device → ℕ → Bool → Bool → (ℕ → ℕ) → (ℕ → ℕ) → Resources → Option Volume × Resources
tfs_init device start semaphore memory stack page r =
    let r1 = record r { semaphores = r.semaphores + 1 } in
    let r2 = record r1 { pages = r.pages + 1 } in
    let r3 = record r2 { requests = r.requests + 1 } in
    let b = start % 2 ^ 32 in
    if not (device.block_size == tfs_block_size)
    then (none, r)
    else if not semaphore
    then (none, r)
    else if not memory
    then (none, give_semaphore r1)
    else if device.fails r.requests b
    then (none, give_page (give_semaphore r3))
    else check_header device start stack (fill (device.disk b) page) r3

pub tfs_unmount : Resources → ℤ × Resources
tfs_unmount r = (vfs_ok, give_page (give_semaphore r))
