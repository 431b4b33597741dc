-- ===== src/Stalloc.antt =====
-- kudos/kernel/stalloc.c: permanent memory for the kernel, taken from the end of the kernel image.
-- The state is free_area_start, a 32-bit address.
pub mod Bounds
mod Tests
use aar.Base.{
  ℕ, ◌+◌, ◌*◌, ◌/◌, ◌%◌, ◌^◌, Bool, true, false, not, Outcome, done, panic, ◌>>=◌, ◌>>◌, assert,
  ◌==◌, if◌then◌else◌,
}
use aar.Base.Int.{ℤ, pos, negsuc}

-- `if (a & 0x03) { a += 4; a &= 0xfffffffc; }`
abbrev pub word_boundary : ℕ → ℕ
word_boundary a = if not (a % 4 == 0) then (a + 4) % 2 ^ 32 / 4 * 4 else a

unfoldable pub stalloc_init : ℕ → ℕ
stalloc_init kernel_ends_here = word_boundary kernel_ends_here

unfoldable pub stalloc_disable : ℕ
stalloc_disable = 0xffffffff

-- The address of the memory, and the new state.
pub stalloc : ℤ → ℕ → Outcome (ℕ × ℕ)
stalloc (negsuc n) free_area_start = panic
stalloc (pos bytes) free_area_start = do
  assert (not (free_area_start == 0xffffffff))
  assert (not (free_area_start == 0))
  done (free_area_start, word_boundary ((free_area_start + bytes) % 2 ^ 32))
