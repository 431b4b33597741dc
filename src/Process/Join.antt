-- ===== src/Process/Join.antt =====
-- process_join of kudos/proc/process.c: illegal calls, collecting a result, and waiting for it.
use aar.Base.{>>=_assoc}
use aar.Base.{ltb→lt}
use aar.Base.{
  ℕ, ◌<◌, ◌≡◌, refl, ◌≢◌, sym, ap, ◌∙◌, Bool, true, false, List, NotIn, arith, lt→ltb, update_self,
  update_ne, ltb, Option, none, some, done, Returns, Returns-bind, ◌>>=◌, Bool-cases, inl, inr,
}
use aar.Base.Int.{ℤ, pos, negsuc, eq_ℤ}
use aar.Kernel.{max_threads, max_cpus}
use aar.Kernel.SleepQueue.{sleepq_add}
use aar.Kernel.SleepQueue.Buckets.{IsTid}
use aar.Kernel.SleepQueue.Frame.{Sound, Sound-interrupts}
use aar.Kernel.SleepQueue.Sleep.{Slept, sleep-Slept}
use aar.Kernel.Threads.{thread_switch}
use aar.Process.{
  Machine, ProcessState, process_free, process_zombie, max_processes, illegal_join, block_address,
  process_reset, process_get_current_process, disabled, is_zombie, join_round, join_entry,
  process_join, process_exit,
}
use aar.Pages.Free.{Reserved}
use aar.Process.Exit.{pagetable_page, Exited, process_exit-Exited}

-- What a round of process_join on the entry `pid` leaves behind.
pub data Joins (cpu pid : ℕ) (m : Machine) (ts : List ℕ) (bs : ℕ → List ℕ)
    : Option ℤ × Machine → Type 0 where
  collected :
      {r : Option ℤ × Machine}
      → (m.processes pid).state ≡ process_zombie
      → r.0 ≡ some (m.processes pid).retval
      → (r.1.processes pid).state ≡ process_free
      → ((x : ℕ) → pid ≢ x → r.1.processes x ≡ m.processes x)
      → Sound r.1.kernel ts bs
      → r.1.kernel.interrupts ≡ m.kernel.interrupts
      → Joins cpu pid m ts bs r
  waiting :
      {r : Option ℤ × Machine}
      → (m.processes pid).state ≢ process_zombie
      → r.0 ≡ none
      → r.1.processes ≡ m.processes
      → Slept cpu (disabled m).kernel (block_address m pid) ts bs r.1.kernel
      → Joins cpu pid m ts bs r

zombie_of : (s : ProcessState) → is_zombie s ≡ true → s ≡ process_zombie
zombie_of ProcessState.process_free h = cc
zombie_of ProcessState.process_running h = cc
zombie_of ProcessState.process_zombie h = refl

alive_of : (s : ProcessState) → is_zombie s ≡ false → s ≢ process_zombie
alive_of s h e = ground arith

join-entry :
    (cpu pid : ℕ) (m : Machine)
    → cpu < max_cpus
    → m.kernel.current cpu < max_threads
    → pid < max_processes
    → (m.processes pid).parent ≡ process_get_current_process cpu m
    → eq_ℤ (process_get_current_process cpu m) (process_get_current_process cpu m) ≡ true
    → process_join cpu (pos pid) m ≡ join_round cpu m.kernel.interrupts pid (disabled m)
unfolding process_join join_entry
join-entry cpu pid m h b p e t =
    rw (lt→ltb cpu 4 h, lt→ltb (m.kernel.current cpu) 32 b, lt→ltb pid 128 p, e, t)

eq_ℤ-self : (z : ℤ) → eq_ℤ z z ≡ true
eq_ℤ-self (pos n) = ground arith
eq_ℤ-self (negsuc n) = ground arith

round-collects :
    (cpu pid : ℕ) (b : Bool) (m : Machine)
    → (m.processes pid).state ≡ process_zombie
    → join_round cpu b pid m
      ≡ done (
        some (m.processes pid).retval,
        record (process_reset pid m) { kernel = record m.kernel { interrupts = b } },
      )
unfolding join_round
round-collects cpu pid b m e = rw e

round-waits :
    (cpu pid : ℕ) (b : Bool) (m : Machine)
    → is_zombie (m.processes pid).state ≡ false
    → join_round cpu b pid m ≡ (
        sleepq_add cpu (block_address m pid) m.kernel >>= λ k₁.
        thread_switch cpu k₁ >>= λ k₂. done (none, record m { kernel = k₂ }))
unfolding join_round
round-waits cpu pid b m e = rw e

reset-free : (pid : ℕ) (m : Machine) → ((process_reset pid m).processes pid).state ≡ process_free
unfolding process_reset
reset-free pid m = ap (λ p. p.state) (update_self m.processes pid _)

reset-other :
    (pid x : ℕ) (m : Machine) → pid ≢ x → (process_reset pid m).processes x ≡ m.processes x
unfolding process_reset
reset-other pid x m d = update_ne m.processes pid x _ d

-- On well-formed lists a call of process_join by the parent, from a running thread other than the
-- idle thread that waits for nothing and is not on the ready list, always returns or gives up the
-- processor. If the child is a zombie, the caller gets its result, its entry becomes free, and the
-- other entries, the threads' lists and the interrupt state are as before; otherwise the caller
-- waits for it as the last of its queue, the first ready thread runs, and no process changes.
pub process_join-Joins :
    (cpu pid : ℕ) (m : Machine) (ts : List ℕ) (bs : ℕ → List ℕ)
    → cpu < max_cpus
    → 0 < m.table_address
    → IsTid (m.kernel.current cpu)
    → (m.kernel.threads (m.kernel.current cpu)).sleeps_on ≡ 0
    → pid < max_processes
    → (m.processes pid).parent ≡ process_get_current_process cpu m
    → NotIn (m.kernel.current cpu) ts
    → Sound m.kernel ts bs
    → Returns (process_join cpu (pos pid) m) (Joins cpu pid m ts bs)
process_join-Joins cpu pid m ts bs h t b z p e n s =
    rw (join-entry cpu pid m h b.1 p e (eq_ℤ-self (process_get_current_process cpu m)))
      (elim (Bool-cases (is_zombie (m.processes pid).state)) [
        | inl d ↦
            let dead = zombie_of (m.processes pid).state d in
            rw (round-collects cpu pid m.kernel.interrupts (disabled m) dead) (
              collected dead refl (reset-free pid (disabled m))
                (λ x o. reset-other pid x (disabled m) o)
                (Sound-interrupts m.kernel m.kernel.interrupts ts bs s) refl)
        | inr d ↦
            rw
              (round-waits cpu pid m.kernel.interrupts (disabled m) d
                ∙ sym (
                    >>=_assoc (sleepq_add cpu (block_address m pid) (disabled m).kernel)
                      (thread_switch cpu) (λ k₂. done (none, record m { kernel = k₂ }))))
              (Returns-bind
                (sleepq_add cpu (block_address m pid) (disabled m).kernel >>= thread_switch cpu)
                (λ k₂. done (none, record m { kernel = k₂ }))
                (Slept cpu (disabled m).kernel (block_address m pid) ts bs) (Joins cpu pid m ts bs)
                (sleep-Slept cpu (disabled m).kernel (block_address m pid) ts bs refl h b z
                  (λ f. absurd (omega arith)) n (Sound-interrupts m.kernel false ts bs s))
                λ k₂ a. waiting (alive_of (m.processes pid).state d) refl refl a)
      ])

eq_ℤ-ne : (a b : ℤ) → a ≢ b → eq_ℤ a b ≡ false
eq_ℤ-ne (pos m) (pos n) h = let d : m ≢ n = λ e. h (ap pos e) in ground arith
eq_ℤ-ne (pos m) (negsuc n) h = ground arith
eq_ℤ-ne (negsuc m) (pos n) h = ground arith
eq_ℤ-ne (negsuc m) (negsuc n) h = let d : m ≢ n = λ e. h (ap negsuc e) in ground arith

-- process_join on a number that is no entry of the table, or from a process other than the parent,
-- gives PROCESS_ILLEGAL_JOIN and changes nothing.
pub process_join-illegal :
    (cpu : ℕ) (pid : ℤ) (m : Machine)
    → cpu < max_cpus
    → m.kernel.current cpu < max_threads
    → ((n : ℕ)
        → pid ≡ pos n
        → n < max_processes
        → (m.processes n).parent ≢ process_get_current_process cpu m)
    → process_join cpu pid m ≡ done (some illegal_join, m)
unfolding process_join join_entry
process_join-illegal cpu (negsuc n) m h b d = refl
process_join-illegal cpu (pos pid) m h b d = elim (Bool-cases (ltb pid max_processes)) [
  | inr e ↦ rw e
  | inl e ↦
      let ne =
        eq_ℤ-ne (m.processes pid).parent (process_get_current_process cpu m)
          (d pid refl (ltb→lt pid 128 e)) in
      rw (e, lt→ltb cpu 4 h, lt→ltb (m.kernel.current cpu) 32 b, ne)
]

-- On well-formed lists, if a running thread other than the idle thread, which waits for nothing and
-- is not on the ready list, and whose page table is on a page of the pool that is reserved and not
-- static, ends a process of the table by process_exit, then the next round of process_join for that
-- process gives the result that process_exit was called with, and frees the entry.
pub join_round-process_exit :
    (cpu cpu' pid : ℕ) (retval : ℤ) (b : Bool) (m : Machine) (ts : List ℕ) (bs : ℕ → List ℕ)
    → cpu < max_cpus
    → IsTid (m.kernel.current cpu)
    → (m.kernel.threads (m.kernel.current cpu)).sleeps_on ≡ 0
    → process_get_current_process cpu m ≡ pos pid
    → pid < max_processes
    → NotIn (m.kernel.current cpu) ts
    → Sound m.kernel ts bs
    → Reserved (pagetable_page cpu m) m.pages
    → Returns
        (process_exit cpu retval m >>= join_round cpu' b pid)
        (λ r. (r.0 ≡ some retval) × ((r.1.processes pid).state ≡ process_free))
join_round-process_exit cpu cpu' pid retval b m ts bs h i z e p n s r =
    Returns-bind (process_exit cpu retval m) (join_round cpu' b pid) (Exited cpu pid retval m ts bs)
      (λ r. (r.0 ≡ some retval) × ((r.1.processes pid).state ≡ process_free))
      (process_exit-Exited cpu pid retval m ts bs h i z e p n s r)
      λ m' x. rw (round-collects cpu' pid b m' x.state) (ap some x.result, reset-free pid m')
