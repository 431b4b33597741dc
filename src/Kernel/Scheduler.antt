-- ===== src/Kernel/Scheduler.antt =====
-- kudos/kernel/scheduler.c: the ready list, linked through the thread table, and the choice of the
-- next thread. The timer that ends a time slice is a device and is not modelled.
pub mod ReadyList
pub mod Retire
pub mod RoundRobin
pub mod Fairness
pub mod Keeps
use aar.Base.{
  ℕ, zero, suc, Bool, true, false, not, ◌<◌, Outcome, done, panic, ◌>>=◌, ◌>>◌, assert, in_range,
  update, ltb, ◌==◌, if◌then◌else◌,
}
use aar.Base.Int.{ℤ, pos, negsuc, eq_ℤ}
use aar.Kernel.{
  Kernel, ThreadState, running, ready, sleeping, free, max_threads, max_cpus, idle_tid, no_thread,
  set_state, set_next, is_ready, is_dying,
}

-- scheduler_init
pub scheduler_init : Kernel → Kernel
scheduler_init k = record k { current = λ cpu. if ltb cpu max_cpus then 0 else k.current cpu }

-- The two branches of scheduler_add_to_ready_list, after its assertions.
link_last : ℕ → Kernel → Outcome Kernel
link_last t k = elim k.tail [
  | negsuc _ ↦ done (set_next t no_thread (record k { head = pos t; tail = pos t }))
  | pos l ↦ do
    in_range (ltb l max_threads)
    done (record (set_next t no_thread (set_next l (pos t) k)) { tail = pos t })
]

unfoldable pub add_to_ready_list : ℤ → Kernel → Outcome Kernel
unfolding link_last
add_to_ready_list (negsuc n) k = panic
add_to_ready_list (pos t) k = do
  assert (not (t == idle_tid))
  assert (ltb t max_threads)
  link_last t k

-- An empty list gives the idle thread.
pub remove_first_ready : Kernel → Outcome (ℕ × Kernel)
remove_first_ready k = elim k.head [
  | negsuc _ ↦ done (idle_tid, k)
  | pos t ↦ do
    assert (not (t == idle_tid))
    in_range (ltb t max_threads)
    assert (is_ready (k.threads t).state)
    done (
      t,
      record k {
        tail = if eq_ℤ k.tail (pos t) then no_thread else k.tail;
        head = (k.threads t).next;
      },
    )
]

-- scheduler_add_ready
unfoldable pub add_ready : ℤ → Kernel → Outcome Kernel
unfolding add_to_ready_list
add_ready (negsuc n) k = panic
add_ready (pos t) k = do k' ← add_to_ready_list (pos t) k; done (set_state t ready k')

-- What scheduler_schedule does with the thread that ran.
pub retire : ℕ → Kernel → Outcome Kernel
retire c k =
    if is_dying (k.threads c).state
    then done (set_state c free k)
    else if not ((k.threads c).sleeps_on == 0)
    then done (set_state c sleeping k)
    else do
      k' ← if not (c == idle_tid) then add_to_ready_list (pos c) k else done k
      done (set_state c ready k')

pub schedule : ℕ → Kernel → Outcome Kernel
schedule cpu k = do
  in_range (ltb cpu max_cpus)
  in_range (ltb (k.current cpu) max_threads)
  k₁ ← retire (k.current cpu) k
  (t, k₂) ← remove_first_ready k₁
  done (record (set_state t running k₂) { current = update k₂.current cpu t })
