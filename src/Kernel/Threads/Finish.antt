-- ===== src/Kernel/Threads/Finish.antt =====
-- thread_finish of kudos/kernel/thread.c, up to the switch to the next thread.
use aar.Base.{[], ◌∷◌}
use aar.Base.{
  ℕ, ◌<◌, ◌≡◌, ◌≢◌, subst, ap, ◌∙◌, List, NotIn, arith, lt→ltb, update, Returns, Returns-mono,
}
use aar.Kernel.{Kernel, dying, free, set_state, max_threads, max_cpus}
use aar.Kernel.Scheduler.{schedule}
use aar.Kernel.Scheduler.Retire.{requeue, retired_state}
use aar.Kernel.Scheduler.RoundRobin.{next_thread, rest}
use aar.Kernel.SleepQueue.Buckets.{IsTid}
use aar.Kernel.SleepQueue.Frame.{Sound, Sound-set_state}
use aar.Kernel.SleepQueue.Switch.{Switched, schedule-Sound}
use aar.Kernel.Threads.{thread_finish}

-- The kernel when the running thread of `cpu` has ended.
pub record Finished (cpu : ℕ) (k : Kernel) (ts : List ℕ) (bs : ℕ → List ℕ) (k' : Kernel)
    : Type 0 where
  pub sound : Sound k' (rest ts) bs
  pub runs : k'.current ≡ update k.current cpu (next_thread ts)
  pub freed : (k'.threads (k.current cpu)).state ≡ free
  pub sleeps_on : (x : ℕ) → (k'.threads x).sleeps_on ≡ (k.threads x).sleeps_on

finish-schedules :
    (cpu : ℕ) (k : Kernel)
    → cpu < max_cpus
    → k.current cpu < max_threads
    → (k.threads (k.current cpu)).pagetable ≡ 0
    → thread_finish cpu k ≡ schedule cpu (set_state (k.current cpu) dying k)
unfolding thread_finish
finish-schedules cpu k h b p = rw (lt→ltb cpu 4 h, lt→ltb (k.current cpu) 32 b, p)

next-ne : (c : ℕ) (ts : List ℕ) → c ≢ 0 → NotIn c ts → c ≢ next_thread ts
next-ne c [] z n = z
next-ne c (t ∷ ts) z n = n.0

-- On well-formed lists thread_finish always returns for a running thread other than the idle
-- thread that is not on the ready list and whose page table is gone: its entry of the thread table
-- is free, the first ready thread runs, and the lists are well formed and keep the other threads.
pub thread_finish-Finished :
    (cpu : ℕ) (k : Kernel) (ts : List ℕ) (bs : ℕ → List ℕ)
    → cpu < max_cpus
    → IsTid (k.current cpu)
    → (k.threads (k.current cpu)).pagetable ≡ 0
    → NotIn (k.current cpu) ts
    → Sound k ts bs
    → Returns (thread_finish cpu k) (Finished cpu k ts bs)
thread_finish-Finished cpu k ts bs h b p n s = rw (finish-schedules cpu k h b.1 p) (
    Returns-mono (schedule cpu k₁) (Switched cpu k₁ ts bs) (Finished cpu k ts bs)
      (schedule-Sound cpu k₁ ts bs h b.1 n (Sound-set_state k c dying ts bs n s))
      λ k' a. record {
        sound = subst (λ q. Sound k' (rest q) bs) gone a.0;
        runs = a.1.current ∙ ap (λ q. update k.current cpu (next_thread q)) gone;
        freed =
            a.1.own
              (λ e. next-ne c ts (λ z. absurd (omega (arith, b.0))) n (e ∙ ap next_thread gone))
            ∙ to_free;
        sleeps_on = λ x. a.1.sleeps_on x ∙ same x;
      })
  where
    c : ℕ
    c = k.current cpu

    k₁ : Kernel
    k₁ = set_state c dying k

    gone : requeue k₁ c ts ≡ ts
    gone = ground arith

    to_free : retired_state k₁ c ≡ free
    to_free = ground arith

    same : (x : ℕ) → (k₁.threads x).sleeps_on ≡ (k.threads x).sleeps_on
    same x = ground arith
