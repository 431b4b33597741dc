-- ===== src/Syscall/RoundTrip.antt =====
-- SYSCALL_WRITE, SYSCALL_SEEK and SYSCALL_READ of proc/syscall.c on a file of the trivial filesystem.
use aar.Base.{ℕ, ◌<◌, ◌≡◌}
use aar.Base.Int.{pos}
use aar.Vfs.{Vfs}
use aar.Vfs.Driver.{World}
use aar.Syscall.{System, Answer, Surroundings, returns}

-- The buffer of the process at the address holds `bytes`.
abbrev pub Points : Surroundings World → ℕ → (ℕ → ℕ) → Type 0
Points e buffer bytes = (w : World) → e.point_at buffer w ≡ (record w.0 { buffer = bytes }, w.1)

-- The answer of a read of `k` bytes, which are those of `source`; no process has changed since `s`.
abbrev pub Gives : ℕ → (ℕ → ℕ) → System World → Answer × System World → Type 0
Gives k source s r =
    (r.0 ≡ returns (pos k))
    × ((j : ℕ) → j < k → r.1.vfs.world.0.buffer j ≡ source j)
    × (r.1.machine ≡ s.machine)
