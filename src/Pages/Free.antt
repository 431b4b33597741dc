-- ===== src/Pages/Free.antt =====
-- physmem_freeblock and vm_destroy_pagetable of kudos/vm/mips32 on a reserved page.
use aar.Base.{ℕ, ◌+◌, ◌/◌, ◌<◌, ◌≤◌, ◌≡◌, refl, true, done, ltb, leb, ◌==◌, if◌then◌else◌, arith}
use aar.Base.Int.{pos, ◌+ℤ◌}
use aar.Bitmap.{get_bit, clear_bit, bitmap_get, bitmap_set}
use aar.Bitmap.Update.{get_bit-clear_bit}
use aar.Pages.{Pages, page_of, physical, physmem_freeblock, vm_destroy_pagetable}

-- The page may be freed: it is reserved, but not by stalloc.
pub record Reserved (i : ℕ) (p : Pages) : Type 0 where
  pub not_static : p.static_end ≤ i
  pub there : i < p.num_pages
  pub reserved : get_bit p.free_pages i ≡ 1

-- The page `i` is free, and no other page changes.
pub record Freed (i : ℕ) (p p' : Pages) : Type 0 where
  pub bits : (q : ℕ) → get_bit p'.free_pages q ≡ (if i == q then 0 else get_bit p.free_pages q)
  pub num_free_pages : p'.num_free_pages ≡ p.num_free_pages +ℤ pos 1
  pub num_pages : p'.num_pages ≡ p.num_pages
  pub static_end : p'.static_end ≡ p.static_end

abbrev freed : ℕ → Pages → Pages
freed i p = record p {
  free_pages = clear_bit p.free_pages i;
  num_free_pages = p.num_free_pages +ℤ pos 1;
}

freed-Freed : (i : ℕ) (p : Pages) → Freed i p (freed i p)
freed-Freed i p = record {
  bits = λ q. get_bit-clear_bit p.free_pages i q;
  num_free_pages = refl;
  num_pages = refl;
  static_end = refl;
}

vm_destroy_pagetable-freed :
    (pagetable : ℕ) (p : Pages)
    → Reserved (page_of (physical pagetable)) p
    → vm_destroy_pagetable pagetable p ≡ done (freed (page_of (physical pagetable)) p)
unfolding vm_destroy_pagetable physmem_freeblock bitmap_get bitmap_set
vm_destroy_pagetable-freed pagetable p r =
    let i = page_of (physical pagetable) in
    let a : leb p.static_end i ≡ true = ground (arith, r.not_static) in
    let b : ltb (i / 32) ((p.num_pages + 31) / 32) ≡ true = ground (arith, r.there) in
    let c : (get_bit p.free_pages i == 1) ≡ true = ground (arith, r.reserved) in rw (a, b, c) refl

pub vm_destroy_pagetable-Freed :
    (pagetable : ℕ) (p : Pages)
    → Reserved (page_of (physical pagetable)) p
    → (p' : Pages) × (vm_destroy_pagetable pagetable p ≡ done p')
      × Freed (page_of (physical pagetable)) p p'
vm_destroy_pagetable-Freed pagetable p r =
    let i = page_of (physical pagetable) in
    (freed i p, vm_destroy_pagetable-freed pagetable p r, freed-Freed i p)
