-- ===== src/Pipeline/Control.antt =====
-- The control signals and the memory accesses of ARK/G3/sim.c.
use aar.Base.{ℕ, ◌^◌, ◌<◌, ◌≡◌, false, ◌&&◌, some, arith}
use aar.Pipeline.{PregIfId, PregIdEx, control, get_bigword, set_bigword}

-- No instruction that interp_control decodes reads and writes memory, branches and jumps, or writes
-- both memory and a register.
pub control-exclusive :
    (pc : ℕ) (f : PregIfId) (d d' : PregIdEx)
    → control pc f d ≡ some d'
    → ((d'.mem_read && d'.mem_write) ≡ false)
      × ((d'.branch && d'.jump) ≡ false)
      × ((d'.mem_write && d'.reg_write) ≡ false)
unfolding control
control-exclusive pc f d d' e = (ground arith, ground arith, ground arith)

-- GET_BIGWORD after SET_BIGWORD at the same address gives the word back.
pub get_bigword-set_bigword :
    (mem : ℕ → ℕ) (a value : ℕ) → value < 2 ^ 32 → get_bigword (set_bigword mem a value) a ≡ value
unfolding get_bigword set_bigword
get_bigword-set_bigword mem a value h = ground arith
