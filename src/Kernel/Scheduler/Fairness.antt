-- ===== src/Kernel/Scheduler/Fairness.antt =====
-- scheduler_schedule of kudos/kernel/scheduler.c, called over and over.
use aar.Base.{ap}
use aar.Base.{length, update_self}
use aar.Base.{
  ℕ, zero, suc, ◌<◌, ◌≡◌, ◌∙◌, List, [], ◌∷◌, ◌++◌, arith, NotIn, Outcome, done, Returns,
  Returns-bind, subst, ◌>>=◌,
}
use aar.Kernel.{Kernel, max_threads, max_cpus}
use aar.Kernel.Scheduler.{schedule}
use aar.Kernel.Scheduler.Retire.{Ready, requeue}
use aar.Kernel.Scheduler.RoundRobin.{Scheduled, schedule-Scheduled, next_thread, rest}
use mathlib.Core.List.{append_assoc}

-- scheduler_schedule over and over on one processor, with nothing between.
pub schedule_times : ℕ → ℕ → Kernel → Outcome Kernel
schedule_times zero cpu k = done k
schedule_times (suc n) cpu k = do k' ← schedule cpu k; schedule_times n cpu k'

requeue-append :
    (k : Kernel) (c : ℕ) (ts us : List ℕ) → requeue k c (ts ++ us) ≡ ts ++ requeue k c us
requeue-append k c ts us = ground (arith, append_assoc ts us (c ∷ []))

-- With a ready thread at hand the first one runs next.
schedule-cons :
    (cpu : ℕ) (k : Kernel) (t : ℕ) (ts : List ℕ)
    → cpu < max_cpus
    → k.current cpu < max_threads
    → NotIn (k.current cpu) (t ∷ ts)
    → Ready k (t ∷ ts)
    → Returns (schedule cpu k) (Scheduled cpu k (t ∷ ts) t (requeue k (k.current cpu) ts))
schedule-cons cpu k t ts h c n r =
    subst (λ q. Returns (schedule cpu k) (Scheduled cpu k (t ∷ ts) (next_thread q) (rest q)))
      (requeue-append k (k.current cpu) (t ∷ []) ts) (schedule-Scheduled cpu k (t ∷ ts) h c n r)

-- The others move up by one place, and the thread that runs now is not among them.
moved_up :
    (cpu : ℕ) (k : Kernel) (x t : ℕ) (ts us : List ℕ) (k' : Kernel)
    → Scheduled cpu k (x ∷ ts ++ t ∷ us) x (requeue k (k.current cpu) (ts ++ t ∷ us)) k'
    → (k'.current cpu < max_threads)
      × NotIn (k'.current cpu) (ts ++ t ∷ requeue k (k.current cpu) us)
      × Ready k' (ts ++ t ∷ requeue k (k.current cpu) us)
moved_up cpu k x t ts us k' a = (
  rw now a.in_table,
  rw now (subst (NotIn x) tail_eq a.off_list),
  subst (Ready k') tail_eq a.ready_list,
)
  where
    now : k'.current cpu ≡ x
    now = rw a.current (update_self k.current cpu x)

    tail_eq : requeue k (k.current cpu) (ts ++ t ∷ us) ≡ ts ++ t ∷ requeue k (k.current cpu) us
    tail_eq =
        requeue-append k (k.current cpu) ts (t ∷ us)
        ∙ ap (◌++◌ ts) (requeue-append k (k.current cpu) (t ∷ []) us)

-- If scheduler_schedule is called over and over on one processor, with the running thread in the
-- table and not on the ready list, then a ready thread with `n` others before it runs after `n + 1`
-- calls.
pub schedule_times-current :
    (cpu : ℕ) (ts us : List ℕ) (t : ℕ) (k : Kernel)
    → cpu < max_cpus
    → k.current cpu < max_threads
    → NotIn (k.current cpu) (ts ++ t ∷ us)
    → Ready k (ts ++ t ∷ us)
    → Returns (schedule_times (suc (length ts)) cpu k) (λ k'. k'.current cpu ≡ t)
unfolding schedule_times
schedule_times-current cpu [] us t k h c n r =
    Returns-bind (schedule cpu k) done (Scheduled cpu k (t ∷ us) t (requeue k (k.current cpu) us))
      (λ k'. k'.current cpu ≡ t) (schedule-cons cpu k t us h c n r)
      λ k' a. rw a.current (update_self k.current cpu t)
schedule_times-current cpu (x ∷ ts) us t k h c n r =
    Returns-bind (schedule cpu k) (schedule_times (suc (length ts)) cpu)
      (Scheduled cpu k (x ∷ ts ++ t ∷ us) x (requeue k (k.current cpu) (ts ++ t ∷ us)))
      (λ k'. k'.current cpu ≡ t) (schedule-cons cpu k x (ts ++ t ∷ us) h c n r)
      λ k' a.
        let (c', n', r') = moved_up cpu k x t ts us k' a in
        schedule_times-current cpu ts (requeue k (k.current cpu) us) t k' h c' n' r'
