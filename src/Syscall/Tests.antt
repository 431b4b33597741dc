-- ===== src/Syscall/Tests.antt =====
-- A system in which the theorem on proc/syscall.c is tried: the files of the tests of fs/vfs.c with the
-- processes of the tests of proc/process.c.
use aar.Base.{ℕ, ◌+◌, ◌≡◌, refl, done, Partly, ltb, ◌==◌, if◌then◌else◌}
use aar.Base.Int.{pos, negsuc}
use aar.Process.Tests.{some_machine}
use aar.Syscall.{
  syscall_of, seek, unhandled, System, Surroundings, returns, read, syscall_entry, process_read,
}
use aar.Tfs.Tests.{zeros}
use aar.Vfs.Driver.{World}
use aar.Vfs.Tests.{some_system, some_drivers, some_put_name, some_path}

abbrev some_whole : System World
some_whole = record { machine = some_machine; vfs = some_system; table_ids = λ pid. pos 0 }

-- What the process writes.
abbrev some_bytes : ℕ → ℕ
some_bytes j = j + 1

-- The path name is the same at every address, the bytes to write are at the address 4096, a spawn
-- always fails, and a terminal takes everything.
abbrev some_surroundings : Surroundings World
some_surroundings = record {
  in_userland = λ a. ltb a 2147483648;
  tty_read = λ a n w. done (n, w);
  tty_write = λ a n w. done (n, w);
  string_at = λ a w. some_path;
  point_at = λ a w. (record w.0 { buffer = if a == 4096 then some_bytes else zeros }, w.1);
  put_name = λ a. some_put_name;
  process_spawn = λ a b s. done (negsuc 0, s);
  drivers = some_drivers;
  stack = zeros;
  fuel = 16;
}

-- Nothing is read from the standard output.
read_stdout :
    Partly
      (syscall_entry some_surroundings 0 (read (pos 1) 4096 (pos 3)) some_whole)
      (λ r. r.0 ≡ returns (negsuc 0))
unfolding syscall_entry process_read
read_stdout = refl

-- SYSCALL_SEEK to the start on the file handle 5, and SYSCALL_FORK, which is not handled.
decoded : (syscall_of 0x203 5 0 7 ≡ seek (pos 5) (pos 0)) × (syscall_of 0x104 5 0 7 ≡ unhandled)
decoded = (refl, refl)
