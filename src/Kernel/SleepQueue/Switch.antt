-- ===== src/Kernel/SleepQueue/Switch.antt =====
-- scheduler_schedule of kudos/kernel/scheduler.c in the presence of sleep queues.
use aar.Base.{ℕ, ◌<◌, ap, List, NotIn, All-mono, Returns, Returns-mono}
use aar.Kernel.{Kernel, max_threads, max_cpus}
use aar.Kernel.Scheduler.{schedule}
use aar.Kernel.Scheduler.Retire.{requeue}
use aar.Kernel.Scheduler.RoundRobin.{Scheduled, schedule-Scheduled, next_thread, rest}
use aar.Kernel.SleepQueue.Buckets.{WaitsAt, SameLinks, Bucket-agree}
use aar.Kernel.SleepQueue.Frame.{Sound}

abbrev pub Switched : ℕ → Kernel → List ℕ → (ℕ → List ℕ) → Kernel → Type 0
Switched cpu k ts bs k' =
    Sound k' (rest (requeue k (k.current cpu) ts)) bs
    × Scheduled cpu k ts (next_thread (requeue k (k.current cpu) ts))
        (rest (requeue k (k.current cpu) ts)) k'

-- On well-formed lists scheduler_schedule always returns, if the running thread is in the table
-- and not on the ready list: every sleep queue keeps its threads in their order, and the ready
-- list and the choice of the next thread are those of the round robin.
pub schedule-Sound :
    (cpu : ℕ) (k : Kernel) (ts : List ℕ) (bs : ℕ → List ℕ)
    → cpu < max_cpus
    → k.current cpu < max_threads
    → NotIn (k.current cpu) ts
    → Sound k ts bs
    → Returns (schedule cpu k) (Switched cpu k ts bs)
schedule-Sound cpu k ts bs h c n s =
    Returns-mono (schedule cpu k)
      (Scheduled cpu k ts (next_thread (requeue k (k.current cpu) ts))
        (rest (requeue k (k.current cpu) ts)))
      (Switched cpu k ts bs) (schedule-Scheduled cpu k ts h c n s.ready_list)
      λ k' a. (
        record {
          ready_list = a.ready_list;
          sleepers = λ j.
              Bucket-agree k k' j (bs j) (ap (λ f. f j) a.sleepq)
                (All-mono (WaitsAt k j) (SameLinks k k') (bs j)
                  (λ x v. (a.next x v.0, a.sleeps_on x)) (s.sleepers j).waiting)
                (s.sleepers j);
        },
        a,
      )
