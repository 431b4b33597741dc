-- ===== src/Pages.antt =====
-- The page pool of kudos/vm/mips32/mm_phys.c as far as the end of a process uses it, with
-- vm_destroy_pagetable of kudos/vm/mips32/mm_virt.c. Each operation holds the spinlock of the pool with
-- interrupts off, and puts the interrupt state back.
pub mod Free
use aar.Base.{
  ℕ, ◌+◌, ◌*◌, ◌/◌, ◌%◌, ◌^◌, Bool, Outcome, done, ◌>>=◌, ◌>>◌, assert, in_range, not, ltb, leb,
  ◌==◌,
}
use aar.Base.Int.{ℤ, pos, ◌+ℤ◌}
use aar.Bitmap.{bitmap_get, bitmap_set}

abbrev pub page_size : ℕ
page_size = 4096

-- physmem_num_pages, physmem_num_free_pages, physmem_static_end and physmem_free_pages. A bit of the
-- last is 1 where the page is reserved.
pub record Pages : Type 0 where
  pub num_pages : ℕ
  pub num_free_pages : ℤ
  pub static_end : ℕ
  pub free_pages : ℕ → ℕ

-- The page of a physical address.
abbrev pub page_of : ℕ → ℕ
page_of phys_addr = phys_addr / page_size

unfoldable pub physmem_freeblock : ℕ → Pages → Outcome Pages
physmem_freeblock phys_addr p =
    let i = page_of phys_addr in
    do
      assert (leb p.static_end i)
      in_range (ltb (i / 32) ((p.num_pages + 31) / 32))
      b ← bitmap_get p.free_pages (pos i)
      assert (b == 1)
      free_pages ← bitmap_set p.free_pages (pos i) (pos 0)
      done (record p { free_pages = free_pages; num_free_pages = p.num_free_pages +ℤ pos 1 })

-- ADDR_KERNEL_TO_PHYS
abbrev pub physical : ℕ → ℕ
physical addr = addr % 2 ^ 31

unfoldable pub vm_destroy_pagetable : ℕ → Pages → Outcome Pages
vm_destroy_pagetable pagetable p = physmem_freeblock (physical pagetable) p
