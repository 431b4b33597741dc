-- ===== src/Kernel/Threads.antt =====
-- kudos/kernel/thread.c: the thread table and its operations, and the context functions of
-- kudos/kernel/mips32/cswitch.c that they call. The addresses of functions are arguments.
pub mod Creation
pub mod Finish
use aar.Base.{
  ℕ, zero, suc, ◌+◌, ◌-◌, ◌*◌, ◌%◌, ◌^◌, Bool, true, false, Option, none, some, Outcome, done,
  panic, ◌>>=◌, ◌>>◌, assert, in_range, update, ltb, ◌==◌, if◌then◌else◌,
}
use aar.Base.Int.{ℤ, pos, negsuc}
use aar.Kernel.{
  Kernel, Context, Thread, ThreadState, free, ready, nonready, dying, max_threads, max_cpus,
  thread_stacksize, idle_tid, no_thread, set_state, is_free,
}
use aar.Kernel.Scheduler.{add_ready, schedule}

-- sizeof(context_t): 34 words.
abbrev pub sizeof_context : ℕ
sizeof_context = 136

abbrev mips_register_a0 : ℕ
mips_register_a0 = 3

abbrev mips_register_sp : ℕ
mips_register_sp = 26

abbrev mips_register_ra : ℕ
mips_register_ra = 28

-- INTERRUPT_MASK_ALL | INTERRUPT_MASK_MASTER
abbrev interrupts_on : ℕ
interrupts_on = 0xff01

-- The top of a thread's stack, where its context is saved.
abbrev pub context_address : Kernel → ℕ → ℕ
context_address k t = k.stack_areas + thread_stacksize * t + thread_stacksize - sizeof_context

-- The stack pointer that a thread starts with, as a 32-bit address.
abbrev pub stack_address : Kernel → ℕ → ℕ
stack_address k t =
    (k.stack_areas + thread_stacksize * t + thread_stacksize - 4 - sizeof_context) % 2 ^ 32

pub context_init : Context → ℕ → ℕ → ℕ → ℕ → Context
context_init cxt entry endentry stack args = record cxt {
  pc = entry;
  registers =
      update
        (update (update cxt.registers mips_register_sp ((stack + 2 ^ 32 - 4) % 2 ^ 32))
          mips_register_a0 args)
        mips_register_ra endentry;
  status = interrupts_on;
}

pub context_set_ip : Context → ℕ → Context
context_set_ip cxt ip = record cxt { pc = ip }

pub context_enable_ints : Context → Context
context_enable_ints cxt = record cxt { status = interrupts_on }

pub context_set_sp : Context → ℕ → Context
context_set_sp cxt sp = record cxt { registers = update cxt.registers mips_register_sp sp }

abbrev zero_context : Context
zero_context = record { registers = λ _. 0; hi = 0; lo = 0; pc = 0; status = 0; prev_context = 0 }

-- An entry of the table with nothing in it.
abbrev blank : ℕ → ThreadState → Thread
blank address s = record {
  context = address;
  user_context = 0;
  state = s;
  sleeps_on = 0;
  pagetable = 0;
  process_id = negsuc 0;
  next = no_thread;
  attribs = 0;
}

idle_context : Kernel → ℕ → Context
unfolding context_set_ip context_set_sp context_enable_ints
idle_context k idle_loop =
    let saved = k.contexts (context_address k idle_tid) in
    record (context_enable_ints
      (context_set_sp (context_set_ip saved idle_loop) (stack_address k idle_tid))) {
        prev_context = context_address k idle_tid;
      }

-- The entries keep their thread_data, which is padding.
pub thread_table_init : ℕ → Kernel → Kernel
unfolding idle_context
thread_table_init idle_loop k =
    let entries =
      λ (t : ℕ). if ltb t max_threads then blank (context_address k t) free else k.threads t in
    record k {
      threads = update entries idle_tid (blank (context_address k idle_tid) ready);
      contexts = update k.contexts (context_address k idle_tid) (idle_context k idle_loop);
    }

-- The search of thread_create with `n` rounds left, of which the next is round `i`.
pub find_free : ℕ → ℕ → Kernel → Option ℕ
find_free zero i k = none
find_free (suc n) i k =
    let t = (i + k.next_tid) % max_threads in
    let more = find_free n (i + 1) k in
    if t == idle_tid then more else if is_free (k.threads t).state then some t else more

-- The rest of thread_create, for the entry `t`.
pub create_at : ℕ → ℕ → ℕ → ℕ → Kernel → Kernel
unfolding context_init
create_at finish func arg t k =
    let address = context_address k t in
    record k {
      next_tid = (t + 1) % max_threads;
      threads = update k.threads t (blank address nonready);
      contexts = update k.contexts address (
          context_init (record zero_context { prev_context = address }) func finish
            (stack_address k t) arg);
    }

-- -1 if the table is full.
pub thread_create : ℕ → ℕ → ℕ → Kernel → ℤ × Kernel
thread_create finish func arg k = elim (find_free max_threads 0 k) [
  | none ↦ (negsuc 0, k)
  | some t ↦ (pos t, create_at finish func arg t k)
]

unfoldable pub thread_run : ℤ → Kernel → Outcome Kernel
thread_run t k = add_ready t k

-- The yield is a software interrupt, whose handler calls the scheduler. The interrupt state is that
-- which the calling thread has when it goes on.
unfoldable pub thread_switch : ℕ → Kernel → Outcome Kernel
thread_switch cpu k = schedule cpu k

unfoldable pub thread_get_current_thread : ℕ → Kernel → ℕ
thread_get_current_thread cpu k = k.current cpu

-- Up to the yield, after which the thread never runs again.
unfoldable pub thread_finish : ℕ → Kernel → Outcome Kernel
thread_finish cpu k = do
  in_range (ltb cpu max_cpus)
  let t = k.current cpu
  in_range (ltb t max_threads)
  assert ((k.threads t).pagetable == 0)
  schedule cpu (set_state t dying k)
