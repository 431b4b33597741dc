-- ===== src/Syscall.antt =====
-- proc/syscall.c, with process_read and process_write of proc/process.c. The terminal,
-- process_spawn and the memory of the process are parameters.
pub mod RoundTrip
mod Tests
use aar.Base.{
  ℕ, ◌+◌, ◌%◌, ◌^◌, Bool, true, false, not, ◌||◌, Option, none, some, Outcome, done, panic, fault,
  ◌>>=◌, ◌>>◌, assert, in_range, update, ltb, ◌==◌, if◌then◌else◌,
}
use aar.Base.Int.{ℤ, pos, negsuc, ◌+ℤ◌, ◌-ℤ◌, is_neg, eq_ℤ}
use aar.Tfs.{to_int}
use aar.Process.{Machine, max_processes, process_get_current_process, process_join, process_exit}
use aar.Vfs.{Filesystem, Vfs, Op}
use aar.Vfs.Files.{vfs_open, vfs_close, vfs_seek, vfs_read, vfs_write, vfs_create, vfs_remove}
use aar.Vfs.Calls.{vfs_filecount, vfs_file}

-- The kernel with its processes, its files, and TableIdsMaaan.
pub record System (S : Type 0) : Type 0 where
  pub machine : Machine
  pub vfs : Vfs S
  pub table_ids : ℕ → ℤ

-- How a system call ends: it returns a value, halts the machine, gives up the processor in
-- process_join, or ends the thread.
pub data Answer : Type 0 where
  returns : ℤ → Answer
  halts waits ends_thread : Answer

abbrev pub joined : Option ℤ → Answer
joined none = waits
joined (some r) = returns r

-- The rest of the system: IN_USERLAND; the terminal; what a string in the memory of the process holds;
-- the caller's buffer, by its address; process_spawn; the filesystems; what stands in the buffers for
-- names; and the number of rounds of stringcmp.
pub record Surroundings (S : Type 0) : Type 0 where
  pub in_userland : ℕ → Bool
  pub tty_read : ℕ → ℤ → S → Outcome (ℤ × S)
  pub tty_write : ℕ → ℤ → S → Outcome (ℤ × S)
  pub string_at : ℕ → S → ℕ → ℕ
  pub point_at : ℕ → S → S
  pub put_name : ℕ → (ℕ → ℕ) → S → S
  pub process_spawn : ℕ → ℕ → System S → Outcome (ℤ × System S)
  pub drivers : ℕ → Filesystem S
  pub stack : ℕ → ℕ
  pub fuel : ℕ

module _ {S : Type 0} where
  -- An operation on the files.
  abbrev pub on_files : Op S → System S → Outcome (ℤ × System S)
  on_files op s = do r ← op s.vfs; done (r.0, record s { vfs = r.1 })

  abbrev pub on_terminal : (S → Outcome (ℤ × S)) → System S → Outcome (ℤ × System S)
  on_terminal op s = do
    r ← op s.vfs.world
    done (r.0, record s { vfs = record s.vfs { world = r.1 } })

  -- `!IN_USERLAND(buffer) || !IN_USERLAND(buffer + length)`
  abbrev pub outside : Surroundings S → ℕ → ℤ → Bool
  outside e buffer (pos length) =
      not (e.in_userland buffer) || not (e.in_userland ((buffer + length) % 2 ^ 32))
  outside e buffer (negsuc n) = true

  -- Reading and writing use the buffer of the process.
  abbrev pub with_pointer : Surroundings S → ℕ → Op S → Op S
  with_pointer e buffer op v = op (record v { world = e.point_at buffer v.world })

  unfoldable pub process_read : Surroundings S → ℤ → ℕ → ℤ → System S → Outcome (ℤ × System S)
  process_read e filehandle buffer length s =
      if is_neg length
      then done (negsuc 2, s)
      else if outside e buffer length
      then panic
      else if eq_ℤ filehandle (pos 0)
      then on_terminal (e.tty_read buffer length) s
      else if eq_ℤ filehandle (pos 1) || eq_ℤ filehandle (pos 2)
      then done (negsuc 0, s)
      else on_files (with_pointer e buffer (vfs_read e.drivers (filehandle -ℤ pos 3) length)) s

  unfoldable pub process_write : Surroundings S → ℤ → ℕ → ℤ → System S → Outcome (ℤ × System S)
  process_write e filehandle buffer length s =
      if is_neg length
      then done (negsuc 2, s)
      else if outside e buffer length
      then panic
      else if eq_ℤ filehandle (pos 0)
      then done (negsuc 0, s)
      else if eq_ℤ filehandle (pos 1) || eq_ℤ filehandle (pos 2)
      then on_terminal (e.tty_write buffer length) s
      else on_files (with_pointer e buffer (vfs_write e.drivers (filehandle -ℤ pos 3) length)) s

  -- `TableIdsMaaan[pid].oid = vfsID;`
  abbrev pub set_id : ℤ → ℤ → System S → Outcome (System S)
  set_id (negsuc n) id s = fault
  set_id (pos pid) id s =
      in_range (ltb pid max_processes) >> done (record s { table_ids = update s.table_ids pid id })

  unfoldable pub syscall_open_helper : Surroundings S → ℕ → ℕ → System S → Outcome (ℤ × System S)
  syscall_open_helper e cpu pathname s = do
    r ← on_files (vfs_open e.drivers e.fuel e.stack (e.string_at pathname s.vfs.world)) s
    s' ← set_id (process_get_current_process cpu s.machine) r.0 r.1
    done (r.0 +ℤ pos 3, s')

  abbrev pub answer : Outcome (ℤ × System S) → Outcome (Answer × System S)
  answer m = m >>= λ r. done (returns r.0, r.1)

  -- The pathname at an address, of which 0 is NULL.
  abbrev pub path_at : Surroundings S → ℕ → System S → Option (ℕ → ℕ)
  path_at e a s = if a == 0 then none else some (e.string_at a s.vfs.world)

-- The system calls that are handled, with their arguments as the code converts them.
pub data Syscall : Type 0 where
  halt : Syscall
  read : ℤ → ℕ → ℤ → Syscall
  write : ℤ → ℕ → ℤ → Syscall
  spawn : ℕ → ℕ → Syscall
  exit : ℤ → Syscall
  join : ℤ → Syscall
  open_file : ℕ → Syscall
  close : ℤ → Syscall
  seek : ℤ → ℤ → Syscall
  create : ℕ → ℤ → Syscall
  delete : ℕ → Syscall
  filecount : ℕ → Syscall
  file : ℕ → ℤ → ℕ → Syscall
  unhandled : Syscall

-- The cases of syscall_entry by the numbers of proc/syscall.h, for words of 32 bits as arguments.
abbrev pub syscall_of : ℕ → ℕ → ℕ → ℕ → Syscall
syscall_of number arg0 arg1 arg2 =
    if number == 0x1
    then halt
    else if number == 0x204
    then read (to_int arg0) arg1 (to_int arg2)
    else if number == 0x205
    then write (to_int arg0) arg1 (to_int arg2)
    else if number == 0x101
    then spawn arg0 arg1
    else if number == 0x102
    then exit (to_int arg0)
    else if number == 0x103
    then join (to_int arg0)
    else if number == 0x201
    then open_file arg0
    else if number == 0x202
    then close (to_int arg0)
    else if number == 0x203
    then seek (to_int arg0) (to_int arg1)
    else if number == 0x206
    then create arg0 (to_int arg1)
    else if number == 0x207
    then delete arg0
    else if number == 0x208
    then filecount arg0
    else if number == 0x209
    then file arg0 (to_int arg1) arg2
    else unhandled

module _ {S : Type 0} (e : Surroundings S) (cpu : ℕ) where
  -- process_exit does not return, so the vfs_close that follows it is never reached.
  unfoldable pub syscall_entry : Syscall → System S → Outcome (Answer × System S)
  syscall_entry halt s = done (halts, s)
  syscall_entry (read h buffer length) s = answer (process_read e h buffer length s)
  syscall_entry (write h buffer length) s = answer (process_write e h buffer length s)
  syscall_entry (spawn executable argv) s = answer (e.process_spawn executable argv s)
  syscall_entry (exit retval) s = do
    m ← process_exit cpu retval s.machine
    done (ends_thread, record s { machine = m })
  syscall_entry (join pid) s = do
    r ← process_join cpu pid s.machine
    done (joined r.0, record s { machine = r.1 })
  syscall_entry (open_file pathname) s = answer (syscall_open_helper e cpu pathname s)
  syscall_entry (close h) s = answer (on_files (vfs_close e.drivers (h -ℤ pos 3)) s)
  syscall_entry (seek h p) s = answer (on_files (vfs_seek (h -ℤ pos 3) p) s)
  syscall_entry (create pathname size) s =
      answer
        (on_files (vfs_create e.drivers e.fuel e.stack (e.string_at pathname s.vfs.world) size) s)
  syscall_entry (delete pathname) s =
      answer (on_files (vfs_remove e.drivers e.fuel e.stack (e.string_at pathname s.vfs.world)) s)
  syscall_entry (filecount pathname) s =
      answer (on_files (vfs_filecount e.drivers e.fuel e.stack (path_at e pathname s)) s)
  syscall_entry (file pathname idx buffer) s = answer (
      on_files (vfs_file e.drivers (e.put_name buffer) e.fuel e.stack (path_at e pathname s) idx) s)
  syscall_entry unhandled s = panic
