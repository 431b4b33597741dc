-- ===== src/Process/Exit.antt =====
-- process_exit of kudos/proc/process.c, up to the switch to the next thread.
use aar.Base.{
  ℕ, ◌<◌, ◌≡◌, refl, ◌≢◌, sym, subst, ap, ◌∙◌, true, false, List, [], ◌∷◌, ◌++◌, NotIn, All-of,
  NotIn-append, arith, lt→ltb, update, update_self, update_ne, done, fault, Returns, Returns-bind,
  Returns-and, ◌>>=◌, ◌==◌, Bool-cases, inl, inr,
}
use aar.Base.Int.{ℤ, pos, negsuc}
use aar.Kernel.{Kernel, Thread, free, max_threads, max_cpus, is_sleeping}
use aar.Kernel.Scheduler.Keeps.{Keeps}
use aar.Kernel.Scheduler.RoundRobin.{next_thread, rest}
use aar.Kernel.SleepQueue.{sleepq_hash, sleepq_wake_all}
use aar.Kernel.SleepQueue.Buckets.{IsTid}
use aar.Kernel.SleepQueue.Frame.{Sound, Sound-agree, Sound-interrupts, NotIn-Bucket_of_awake}
use aar.Kernel.SleepQueue.Keeps.{sleepq_wake_all-Keeps}
use aar.Kernel.SleepQueue.WakeAll.{others, woken, AllWoken, others-agree, woken-agree}
use aar.Kernel.SleepQueue.WakeAll.Loop.{sleepq_wake_all-AllWoken}
use aar.Pages.{Pages, page_of, physical, vm_destroy_pagetable}
use aar.Pages.Free.{Reserved, Freed, vm_destroy_pagetable-Freed}
use aar.Kernel.Threads.{thread_finish}
use aar.Kernel.Threads.Finish.{Finished, thread_finish-Finished}
use aar.Process.{
  Machine, process_zombie, max_processes, block_address, set_process, process_get_current_process,
  clear_pagetable, exit_as, process_exit,
}

-- The threads that wait for the process `pid`, and the ready list when they are awake.
abbrev pub queue_of : Machine → (ℕ → List ℕ) → ℕ → List ℕ
queue_of m bs pid = bs (sleepq_hash (block_address m pid))

abbrev pub awake : Machine → List ℕ → (ℕ → List ℕ) → ℕ → List ℕ
awake m ts bs pid = ts ++ woken m.kernel.threads (block_address m pid) (queue_of m bs pid)

abbrev pub asleep : Machine → (ℕ → List ℕ) → ℕ → ℕ → List ℕ
asleep m bs pid =
    update bs (sleepq_hash (block_address m pid))
      (others m.kernel.threads (block_address m pid) (queue_of m bs pid))

-- The page of the page table of the running thread.
abbrev pub pagetable_page : ℕ → Machine → ℕ
pagetable_page cpu m = page_of (physical (m.kernel.threads (m.kernel.current cpu)).pagetable)

-- The machine when the running thread of `cpu` has ended the process `pid`.
pub record Exited (cpu pid : ℕ) (retval : ℤ) (m : Machine) (ts : List ℕ) (bs : ℕ → List ℕ)
    (m' : Machine) : Type 0 where
  pub state : (m'.processes pid).state ≡ process_zombie
  pub result : (m'.processes pid).retval ≡ retval
  pub parent : (m'.processes pid).parent ≡ (m.processes pid).parent
  pub kept : (x : ℕ) → pid ≢ x → m'.processes x ≡ m.processes x
  pub sound : Sound m'.kernel (rest (awake m ts bs pid)) (asleep m bs pid)
  pub runs : m'.kernel.current ≡ update m.kernel.current cpu (next_thread (awake m ts bs pid))
  pub page : Freed (pagetable_page cpu m) m.pages m'.pages
  pub freed : (m'.kernel.threads (m.kernel.current cpu)).state ≡ free

-- The kernel as process_exit wakes the waiting threads.
abbrev leaving : ℕ → Machine → Kernel
leaving cpu m = record (clear_pagetable (m.kernel.current cpu) m.kernel) { interrupts = false }

abbrev zombie : ℕ → ℤ → Machine → Machine
zombie pid retval m =
    set_process pid (record (m.processes pid) { state = process_zombie; retval = retval }) m

leaving-same :
    (cpu x : ℕ) (m : Machine)
    → (((leaving cpu m).threads x).sleeps_on ≡ (m.kernel.threads x).sleeps_on)
      × (((leaving cpu m).threads x).state ≡ (m.kernel.threads x).state)
leaving-same cpu x m = (ground arith, ground arith)

leaving-Sound :
    (cpu : ℕ) (m : Machine) (ts : List ℕ) (bs : ℕ → List ℕ)
    → Sound m.kernel ts bs
    → Sound (leaving cpu m) ts bs
leaving-Sound cpu m ts bs =
    Sound-agree m.kernel (leaving cpu m) ts bs (λ x. (ground arith, ground arith, ground arith))
      refl refl refl

-- The threads that are woken stood in the queue.
NotIn-woken : (f : ℕ → Thread) (r c : ℕ) (ts : List ℕ) → NotIn c ts → NotIn c (woken f r ts)
NotIn-woken f r c [] n = tt
NotIn-woken f r c (t ∷ ts) n =
    let more = NotIn-woken f r c ts n.1 in
    elim (Bool-cases ((f t).sleeps_on == r)) [
      | inr e ↦ subst (NotIn c) (sym (skip e)) more
      | inl e ↦ elim (Bool-cases (is_sleeping (f t).state)) [
        | inl s ↦ subst (NotIn c) (sym (take e s)) (n.0, more)
        | inr s ↦ subst (NotIn c) (sym (awake_already e s)) more
      ]
    ]
  where
    skip : ((f t).sleeps_on == r) ≡ false → woken f r (t ∷ ts) ≡ woken f r ts
    skip e = rw e

    take :
        ((f t).sleeps_on == r) ≡ true
        → is_sleeping (f t).state ≡ true
        → woken f r (t ∷ ts) ≡ t ∷ woken f r ts
    take e s = rw (e, s)

    awake_already :
        ((f t).sleeps_on == r) ≡ true
        → is_sleeping (f t).state ≡ false
        → woken f r (t ∷ ts) ≡ woken f r ts
    awake_already e s = rw (e, s)

exit-process :
    (cpu pid : ℕ) (retval : ℤ) (m : Machine)
    → cpu < max_cpus
    → m.kernel.current cpu < max_threads
    → process_get_current_process cpu m ≡ pos pid
    → process_exit cpu retval m ≡ exit_as cpu pid retval m
unfolding process_exit
exit-process cpu pid retval m h b e =
    rw (lt→ltb cpu 4 h, lt→ltb (m.kernel.current cpu) 32 b)
      (ap (λ (z : ℤ). elim z [ negsuc _ ↦ fault | pos p ↦ exit_as cpu p retval m ]) e)

exit-calls :
    (cpu pid : ℕ) (retval : ℤ) (m : Machine) (pages : Pages)
    → pid < max_processes
    → vm_destroy_pagetable (m.kernel.threads (m.kernel.current cpu)).pagetable m.pages ≡ done pages
    → exit_as cpu pid retval m ≡ (
        sleepq_wake_all (block_address m pid) (leaving cpu m) >>= λ k₁.
        thread_finish cpu (record k₁ { interrupts = m.kernel.interrupts }) >>= λ k₂.
        done (record (zombie pid retval m) { kernel = k₂; pages = pages }))
unfolding exit_as
exit-calls cpu pid retval m pages p e = rw (lt→ltb pid 128 p, e)

-- The part after the waiting threads are awake.
finish-Exited :
    (cpu pid : ℕ) (retval : ℤ) (m : Machine) (ts : List ℕ) (bs : ℕ → List ℕ) (k₁ : Kernel)
    (pages : Pages)
    → cpu < max_cpus
    → IsTid (m.kernel.current cpu)
    → (m.kernel.threads (m.kernel.current cpu)).sleeps_on ≡ 0
    → NotIn (m.kernel.current cpu) ts
    → Sound m.kernel ts bs
    → AllWoken (leaving cpu m) (block_address m pid) ts bs [] (queue_of m bs pid) k₁
    → Keeps (leaving cpu m) k₁
    → Freed (pagetable_page cpu m) m.pages pages
    → Returns
        (thread_finish cpu (record k₁ { interrupts = m.kernel.interrupts }) >>= λ k₂.
          done (record (zombie pid retval m) { kernel = k₂; pages = pages }))
        (Exited cpu pid retval m ts bs)
finish-Exited cpu pid retval m ts bs k₁ pages h b z n s a kept pf =
    Returns-bind (thread_finish cpu k₁')
      (λ k₂. done (record (zombie pid retval m) { kernel = k₂; pages = pages }))
      (Finished cpu k₁' (awake m ts bs pid) (asleep m bs pid)) (Exited cpu pid retval m ts bs)
      (thread_finish-Finished cpu k₁' (awake m ts bs pid) (asleep m bs pid) h
        (subst IsTid (sym same) b)
        (ap (λ (t : ℕ). (k₁.threads t).pagetable) same ∙ (kept c).0 ∙ cleared)
        (subst (λ t. NotIn t (awake m ts bs pid)) (sym same) out)
        (Sound-interrupts k₁ m.kernel.interrupts (awake m ts bs pid) (asleep m bs pid) sound))
      λ k₂ f. record {
        state = ap (λ p. p.state) (update_self m.processes pid _);
        result = ap (λ p. p.retval) (update_self m.processes pid _);
        parent = ap (λ p. p.parent) (update_self m.processes pid _);
        kept = λ x d. update_ne m.processes pid x _ d;
        sound = f.sound;
        page = pf;
        runs = f.runs ∙ ap (λ g. update g cpu (next_thread (awake m ts bs pid))) a.current;
        freed = ap (λ (t : ℕ). (k₂.threads t).state) (sym same) ∙ f.freed;
      }
  where
    c : ℕ
    c = m.kernel.current cpu

    k₁' : Kernel
    k₁' = record k₁ { interrupts = m.kernel.interrupts }

    same : k₁.current cpu ≡ c
    same = ap (λ f. f cpu) a.current

    cleared : ((leaving cpu m).threads c).pagetable ≡ 0
    cleared = ground arith

    out : NotIn c (awake m ts bs pid)
    out = NotIn-append c ts _ n (
        NotIn-woken m.kernel.threads (block_address m pid) c (queue_of m bs pid) (
          NotIn-Bucket_of_awake m.kernel (sleepq_hash (block_address m pid)) (queue_of m bs pid) c z
            (s.sleepers (sleepq_hash (block_address m pid)))))

    sound : Sound k₁ (awake m ts bs pid) (asleep m bs pid)
    sound =
        subst (λ q. Sound k₁ (ts ++ q) (asleep m bs pid))
          (woken-agree m.kernel.threads (leaving cpu m).threads (block_address m pid)
            (queue_of m bs pid) (All-of _ (queue_of m bs pid) (λ x. leaving-same cpu x m)))
          (subst
            (λ q.
              Sound k₁
                (ts ++ woken (leaving cpu m).threads (block_address m pid) (queue_of m bs pid))
                (update bs (sleepq_hash (block_address m pid)) q))
            (others-agree m.kernel.threads (leaving cpu m).threads (block_address m pid)
              (queue_of m bs pid) (All-of _ (queue_of m bs pid) (λ x. leaving-same cpu x m)))
            a.sound)

-- On well-formed lists process_exit always returns for a running thread other than the idle thread
-- that waits for nothing and is not on the ready list, that belongs to a process of the table, and
-- whose page table is on a page of the pool that is reserved and not static. That page is free
-- afterwards, and no other page changes; the process is a zombie with the given result and the same
-- parent, and the other processes are as before; every thread that slept until the process ends
-- stands behind the ready list, in the order in which they came; the entry of the ending thread is
-- free, and the first of that list runs.
pub process_exit-Exited :
    (cpu pid : ℕ) (retval : ℤ) (m : Machine) (ts : List ℕ) (bs : ℕ → List ℕ)
    → cpu < max_cpus
    → IsTid (m.kernel.current cpu)
    → (m.kernel.threads (m.kernel.current cpu)).sleeps_on ≡ 0
    → process_get_current_process cpu m ≡ pos pid
    → pid < max_processes
    → NotIn (m.kernel.current cpu) ts
    → Sound m.kernel ts bs
    → Reserved (pagetable_page cpu m) m.pages
    → Returns (process_exit cpu retval m) (Exited cpu pid retval m ts bs)
process_exit-Exited cpu pid retval m ts bs h b z e p n s r =
    let (pages, d, pf) =
      vm_destroy_pagetable-Freed (m.kernel.threads (m.kernel.current cpu)).pagetable m.pages r in
    rw (exit-process cpu pid retval m h b.1 e ∙ exit-calls cpu pid retval m pages p d) (
      Returns-bind (sleepq_wake_all (block_address m pid) (leaving cpu m)) _
        (λ k₁.
          AllWoken (leaving cpu m) (block_address m pid) ts bs [] (queue_of m bs pid) k₁
          × Keeps (leaving cpu m) k₁)
        (Exited cpu pid retval m ts bs)
        (Returns-and (sleepq_wake_all (block_address m pid) (leaving cpu m))
          (AllWoken (leaving cpu m) (block_address m pid) ts bs [] (queue_of m bs pid))
          (Keeps (leaving cpu m))
          (sleepq_wake_all-AllWoken (leaving cpu m) (block_address m pid) ts bs
            (leaving-Sound cpu m ts bs s))
          (sleepq_wake_all-Keeps (block_address m pid) (leaving cpu m)))
        λ k₁ a. finish-Exited cpu pid retval m ts bs k₁ pages h b z n s a.0 a.1 pf)
