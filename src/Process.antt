-- ===== src/Process.antt =====
-- The process table of kudos/proc/process.c: allocation, join and exit. Loading an executable is not
-- modelled. Each operation holds the spinlock of the table with interrupts off.
pub mod Alloc
pub mod Exit
pub mod Join
pub mod Tests
use aar.Base.{
  ℕ, zero, suc, ◌+◌, ◌*◌, Bool, true, false, not, Option, none, some, Outcome, done, fault, ◌>>=◌,
  ◌>>◌, in_range, update, ltb, if◌then◌else◌,
}
use aar.Base.Int.{ℤ, pos, negsuc, eq_ℤ}
use aar.Kernel.{Kernel, max_threads, max_cpus}
use aar.Kernel.SleepQueue.{sleepq_add, sleepq_wake_all}
use aar.Pages.{Pages, vm_destroy_pagetable}
use aar.Kernel.Threads.{thread_switch, thread_finish, thread_get_current_thread}

-- process_state_t
pub data ProcessState : Type 0 where
  process_free process_running process_zombie : ProcessState

-- process_control_block_t
pub record Process : Type 0 where
  pub state : ProcessState
  pub retval : ℤ
  pub parent : ℤ
  pub entry_point : ℕ
  pub stack_top : ℕ

abbrev pub max_processes : ℕ
max_processes = 128

-- PROCESS_ILLEGAL_JOIN
abbrev pub illegal_join : ℤ
illegal_join = negsuc 1

-- The kernel with the process table, which lies at `table_address`, and the page pool.
pub record Machine : Type 0 where
  pub kernel : Kernel
  pub processes : ℕ → Process
  pub table_address : ℕ
  pub pages : Pages

-- The address of a process control block, of 20 bytes each.
abbrev pub block_address : Machine → ℕ → ℕ
block_address m pid = m.table_address + 20 * pid

abbrev pub is_process_free : ProcessState → Bool
is_process_free process_free = true
is_process_free _ = false

abbrev pub is_zombie : ProcessState → Bool
is_zombie process_zombie = true
is_zombie _ = false

abbrev pub set_process : ℕ → Process → Machine → Machine
set_process pid p m = record m { processes = update m.processes pid p }

unfoldable pub process_reset : ℕ → Machine → Machine
process_reset pid m =
    set_process pid (record (m.processes pid) { state = process_free; retval = pos 0 }) m

-- The loop of process_init, for the entries before `n`.
pub reset_before : ℕ → Machine → Machine
reset_before zero m = m
reset_before (suc n) m = process_reset n (reset_before n m)

pub process_init : Machine → Machine
process_init m = reset_before max_processes m

-- The loop of alloc_process_id with `n` rounds left, of which the next looks at the entry `i`.
pub find_process : ℕ → ℕ → Machine → Outcome (ℕ × Machine)
find_process zero i m = done (i, m)
find_process (suc n) i m =
    let more = find_process n (i + 1) m in
    do
      in_range (ltb i max_processes)
      if is_process_free (m.processes i).state
          then done (i, set_process i (record (m.processes i) { state = process_running }) m)
          else more

-- `for (i = 0; i <= PROCESS_MAX_PROCESSES; ++i)`
pub alloc_process_id : Machine → Outcome (ℕ × Machine)
alloc_process_id m = find_process (suc max_processes) 0 m

abbrev pub process_get_current_process : ℕ → Machine → ℤ
process_get_current_process cpu m = (m.kernel.threads (m.kernel.current cpu)).process_id

-- One round of the loop of process_join, with the code behind the loop; `none` means that the caller
-- has given up the processor and goes on with another round. `intr_status` is what
-- _interrupt_disable gave.
pub join_round : ℕ → Bool → ℕ → Machine → Outcome (Option ℤ × Machine)
join_round cpu intr_status pid m =
    if is_zombie (m.processes pid).state
    then done (
      some (m.processes pid).retval,
      record (process_reset pid m) { kernel = record m.kernel { interrupts = intr_status } },
    )
    else do
      k₁ ← sleepq_add cpu (block_address m pid) m.kernel
      k₂ ← thread_switch cpu k₁
      done (none, record m { kernel = k₂ })

abbrev pub disabled : Machine → Machine
disabled m = record m { kernel = record m.kernel { interrupts = false } }

-- process_join, for the entry `pid` of the table.
unfoldable pub join_entry : ℕ → ℕ → Machine → Outcome (Option ℤ × Machine)
join_entry cpu pid m = do
  in_range (ltb cpu max_cpus)
  in_range (ltb (m.kernel.current cpu) max_threads)
  elim (eq_ℤ (m.processes pid).parent (process_get_current_process cpu m)) [
    | false ↦ done (some illegal_join, m)
    | true ↦ join_round cpu m.kernel.interrupts pid (disabled m)
  ]

-- process_join up to the point where it returns or gives up the processor.
pub process_join : ℕ → ℤ → Machine → Outcome (Option ℤ × Machine)
process_join cpu (negsuc n) m = done (some illegal_join, m)
process_join cpu (pos pid) m =
    if not (ltb pid max_processes) then done (some illegal_join, m) else join_entry cpu pid m

abbrev pub clear_pagetable : ℕ → Kernel → Kernel
clear_pagetable t k = record k {
  threads = update k.threads t (record (k.threads t) { pagetable = 0 });
}

-- process_exit for the process `pid`, up to the yield of thread_finish.
pub exit_as : ℕ → ℕ → ℤ → Machine → Outcome Machine
exit_as cpu pid retval m = do
  in_range (ltb pid max_processes)
  let m' = set_process pid (record (m.processes pid) { state = process_zombie; retval = retval }) m
  pages ← vm_destroy_pagetable (m.kernel.threads (m.kernel.current cpu)).pagetable m.pages
  k₁ ←
      sleepq_wake_all (block_address m pid)
        (record (clear_pagetable (m.kernel.current cpu) m.kernel) { interrupts = false })
  k₂ ← thread_finish cpu (record k₁ { interrupts = m.kernel.interrupts })
  done (record m' { kernel = k₂; pages = pages })

pub process_exit : ℕ → ℤ → Machine → Outcome Machine
process_exit cpu retval m = do
  in_range (ltb cpu max_cpus)
  in_range (ltb (m.kernel.current cpu) max_threads)
  elim (process_get_current_process cpu m) [ negsuc _ ↦ fault | pos pid ↦ exit_as cpu pid retval m ]
