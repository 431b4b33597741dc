-- ===== src/Kernel/SleepQueue.antt =====
-- kudos/kernel/sleepq.c: threads that wait for a resource, in a hash table of lists that are linked
-- through the thread table. A resource is a 32-bit address, used as a key only.
pub mod Buckets
pub mod Frame
pub mod Add
pub mod Detach
pub mod Enqueue
pub mod Wake
pub mod Switch
pub mod WakeAll
pub mod Sleep
pub mod Keeps
use aar.Base.{
  ℕ, zero, suc, ◌%◌, Bool, true, false, not, Option, none, some, Outcome, done, spin, ◌>>=◌, ◌>>◌,
  assert, in_range, update, ltb, ◌==◌, if◌then◌else◌,
}
use aar.Base.Int.{ℤ, pos, negsuc}
use aar.Kernel.{
  Kernel, Thread, ready, max_threads, max_cpus, idle_tid, sleepq_hashtable_size, no_thread,
  set_next, set_state, is_sleeping,
}
use aar.Kernel.Scheduler.{add_to_ready_list}

-- SLEEPQ_HASH
abbrev pub sleepq_hash : ℕ → ℕ
sleepq_hash r = r % sleepq_hashtable_size

-- The thread that a link of a sleep queue leads to: the code ends a queue by `<= 0`.
abbrev pub link : ℤ → Option ℕ
link (pos n) = if ltb 0 n then some n else none
link (negsuc n) = none

pub sleepq_init : Kernel → Kernel
sleepq_init k = record k {
  sleepq = λ h. if ltb h sleepq_hashtable_size then no_thread else k.sleepq h;
}

-- `while (thread_table[prev].next > 0) prev = thread_table[prev].next;`
pub find_last : ℕ → (ℕ → Thread) → ℕ → Outcome ℕ
find_last zero threads prev = spin
find_last (suc n) threads prev = do
  in_range (ltb prev max_threads)
  elim (link (threads prev).next) [ none ↦ done prev | some t ↦ find_last n threads t ]

abbrev pub wait_for : ℕ → ℕ → Kernel → Kernel
wait_for c r k = record k {
  threads = update k.threads c (record (k.threads c) { next = no_thread; sleeps_on = r });
}

pub sleepq_add : ℕ → ℕ → Kernel → Outcome Kernel
sleepq_add cpu r k = if k.interrupts then done k else do
  in_range (ltb cpu max_cpus)
  let c = k.current cpu
  in_range (ltb c max_threads)
  let k₁ = wait_for c r k
  assert (not (c == idle_tid))
  elim (link (k.sleepq (sleepq_hash r))) [
    | none ↦ done (record k₁ { sleepq = update k.sleepq (sleepq_hash r) (pos c) })
    | some first ↦ do prev ← find_last max_threads k₁.threads first; done (set_next prev (pos c) k₁)
  ]

-- The search for the next thread that waits for `r`, with the one before it.
pub seek : ℕ → (ℕ → Thread) → ℕ → ℤ → ℤ → Outcome (ℤ × ℤ)
seek zero threads r prev first = spin
seek (suc n) threads r prev first = elim (link first) [
  | none ↦ done (prev, first)
  | some t ↦ do
    in_range (ltb t max_threads)
    elim (not ((threads t).sleeps_on == r)) [
      | true ↦ seek n threads r first (threads t).next
      | false ↦ done (prev, first)
    ]
]

-- Takes the thread `t` out of the queue at `h`.
abbrev pub unlink : ℕ → ℤ → ℕ → Kernel → Kernel
unlink h prev t k = elim (link prev) [
  | none ↦ record k { sleepq = update k.sleepq h (k.threads t).next }
  | some p ↦ set_next p (k.threads t).next k
]

-- Clears the fields of `t`, and makes it ready if it had gone to sleep.
pub wake_thread : ℕ → Kernel → Outcome Kernel
wake_thread t k =
    let k₁ = wait_for t 0 k in
    if is_sleeping (k.threads t).state
    then add_to_ready_list (pos t) (set_state t ready k₁)
    else done k₁

pub sleepq_wake : ℕ → Kernel → Outcome Kernel
sleepq_wake r k = do
  (prev, first) ← seek max_threads k.threads r no_thread (k.sleepq (sleepq_hash r))
  elim (link first) [ none ↦ done k | some t ↦ wake_thread t (unlink (sleepq_hash r) prev t k) ]

-- The outer loop of sleepq_wake_all.
pub wake_loop : ℕ → ℕ → ℤ → ℤ → Kernel → Outcome Kernel
wake_loop zero r prev first k = spin
wake_loop (suc n) r prev first k = elim (link first) [
  | none ↦ done k
  | some _ ↦ do
    (prev', first') ← seek max_threads k.threads r prev first
    elim (link first') [
      | none ↦ wake_loop n r prev' first' k
      | some t ↦ do
        k' ← wake_thread t (unlink (sleepq_hash r) prev' t k)
        wake_loop n r prev' (k.threads t).next k'
    ]
]

pub sleepq_wake_all : ℕ → Kernel → Outcome Kernel
sleepq_wake_all r k = wake_loop max_threads r no_thread (k.sleepq (sleepq_hash r)) k
