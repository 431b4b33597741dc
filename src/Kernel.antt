-- ===== src/Kernel.antt =====
-- The kernel's shared state: the thread table of kudos/kernel/thread.h and thread.c, the saved
-- contexts of kudos/kernel/mips32/cswitch.h, the ready list of kudos/kernel/scheduler.c and the hash
-- table of kudos/kernel/sleepq.c.
-- Each operation runs with interrupts disabled and its spinlock held, so it is one atomic step and
-- the locks are no part of the state.
pub mod Chain
pub mod Threads
pub mod Scheduler
pub mod SleepQueue
pub mod Semaphore
pub mod Tests
use aar.Base.{ℕ, ◌+◌, ◌-◌, ◌*◌, Bool, true, false, update}
use aar.Base.Int.{ℤ, negsuc}

-- thread_state_t
pub data ThreadState : Type 0 where
  free running ready sleeping nonready dying : ThreadState

-- context_t. `registers` is indexed by the MIPS_REGISTER_ numbers.
pub record Context : Type 0 where
  pub registers : ℕ → ℕ
  pub hi : ℕ
  pub lo : ℕ
  pub pc : ℕ
  pub status : ℕ
  pub prev_context : ℕ

-- thread_table_t, without its padding. Pointers are addresses, and NULL is 0.
pub record Thread : Type 0 where
  pub context : ℕ
  pub user_context : ℕ
  pub state : ThreadState
  pub sleeps_on : ℕ
  pub pagetable : ℕ
  pub process_id : ℤ
  pub next : ℤ
  pub attribs : ℕ

abbrev pub max_threads : ℕ
max_threads = 32

abbrev pub max_cpus : ℕ
max_cpus = 4

abbrev pub thread_stacksize : ℕ
thread_stacksize = 4096

abbrev pub idle_tid : ℕ
idle_tid = 0

abbrev pub sleepq_hashtable_size : ℕ
sleepq_hashtable_size = 127

-- The -1 that ends a list of threads.
abbrev pub no_thread : ℤ
no_thread = negsuc 0

-- The globals. `contexts` is the memory that holds saved contexts, by address; `interrupts` is the
-- enable bit of the processor that runs the operation.
pub record Kernel : Type 0 where
  pub threads : ℕ → Thread
  pub contexts : ℕ → Context
  pub stack_areas : ℕ
  pub current : ℕ → ℕ
  pub head : ℤ
  pub tail : ℤ
  pub sleepq : ℕ → ℤ
  pub next_tid : ℕ
  pub interrupts : Bool

abbrev pub set_state : ℕ → ThreadState → Kernel → Kernel
set_state t s k = record k { threads = update k.threads t (record (k.threads t) { state = s }) }

abbrev pub set_next : ℕ → ℤ → Kernel → Kernel
set_next t n k = record k { threads = update k.threads t (record (k.threads t) { next = n }) }

abbrev pub set_sleeps_on : ℕ → ℕ → Kernel → Kernel
set_sleeps_on t r k = record k {
  threads = update k.threads t (record (k.threads t) { sleeps_on = r });
}

abbrev pub is_free : ThreadState → Bool
is_free free = true
is_free _ = false

abbrev pub is_ready : ThreadState → Bool
is_ready ready = true
is_ready _ = false

abbrev pub is_sleeping : ThreadState → Bool
is_sleeping sleeping = true
is_sleeping _ = false

abbrev pub is_dying : ThreadState → Bool
is_dying dying = true
is_dying _ = false
