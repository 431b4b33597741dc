-- ===== src/Kernel/SleepQueue/Enqueue.antt =====
-- A thread that waits for nothing is made ready: scheduler_add_ready of kudos/kernel/scheduler.c,
-- and the end of sleepq_wake.
use aar.Kernel.SleepQueue.Frame.{NotIn-Bucket_of_awake}
use aar.Kernel.Scheduler.ReadyList.{Queued-agree}
use aar.Base.{ap}
use aar.Base.{
  ℕ, ◌≡◌, refl, ◌≢◌, ◌∙◌, List, [], ◌∷◌, ◌++◌, Returns, Returns-mono, NotIn, All-zip, All-append,
  All-of_NotIn, arith,
}
use aar.Base.Int.{pos}
use aar.Kernel.{Kernel, ready, set_state}
use aar.Kernel.Scheduler.{add_to_ready_list}
use aar.Kernel.Scheduler.ReadyList.{Queued, Linked, add_to_ready_list-Added}
use aar.Kernel.Scheduler.Retire.{IsRunnable}
use aar.Kernel.SleepQueue.Buckets.{WaitsAt, SameLinks, Bucket-agree, IsTid}
use aar.Kernel.SleepQueue.Frame.{Sound, NotIn-Ready_of_waiting}

-- `w` has become the last of the ready list.
pub record Enqueued (k : Kernel) (ts : List ℕ) (bs : ℕ → List ℕ) (w : ℕ) (k' : Kernel)
    : Type 0 where
  pub sound : Sound k' (ts ++ w ∷ []) bs
  pub own : (k'.threads w).state ≡ ready
  pub state : (x : ℕ) → w ≢ x → (k'.threads x).state ≡ (k.threads x).state
  pub sleeps_on : (x : ℕ) → (k'.threads x).sleeps_on ≡ (k.threads x).sleeps_on
  pub current : k'.current ≡ k.current

-- Making `w` ready, and then linking it, as sleepq_wake does.
pub enqueue-Enqueued :
    (k : Kernel) (ts : List ℕ) (bs : ℕ → List ℕ) (w : ℕ)
    → IsTid w
    → (k.threads w).sleeps_on ≡ 0
    → NotIn w ts
    → Sound k ts bs
    → Returns (add_to_ready_list (pos w) (set_state w ready k)) (Enqueued k ts bs w)
enqueue-Enqueued k ts bs w b z n s =
    Returns-mono (add_to_ready_list (pos w) k₁) (λ k'. Queued k' (ts ++ w ∷ []) × Linked k₁ ts w k')
      (Enqueued k ts bs w)
      (add_to_ready_list-Added k₁ ts w b.0 b.1 n
        (Queued-agree k k₁ ts (λ x. ground arith) refl refl s.ready_list.queued))
      λ k' a. linked k' a.0 a.1
  where
    k₁ : Kernel
    k₁ = set_state w ready k

    linked : (k' : Kernel) → Queued k' (ts ++ w ∷ []) → Linked k₁ ts w k' → Enqueued k ts bs w k'
    linked k' q l = record {
      sound = record {
        ready_list = record {
          queued = q;
          states =
              All-append (IsRunnable k') ts (w ∷ [])
                (All-zip (λ y. w ≢ y) (IsRunnable k) (IsRunnable k') ts
                  (λ y d r. (kept y d ∙ r.0, slept y ∙ r.1)) (All-of_NotIn w ts n)
                  s.ready_list.states)
                ((own, slept w ∙ z), tt);
        };
        sleepers = λ j.
            Bucket-agree k k' j (bs j) (ap (λ f. f j) l.sleepq)
              (All-zip (λ y. w ≢ y) (WaitsAt k j) (SameLinks k k') (bs j)
                (λ y d v. (next_kept y d v.0, slept y))
                (All-of_NotIn w (bs j) (NotIn-Bucket_of_awake k j (bs j) w z (s.sleepers j)))
                (s.sleepers j).waiting)
              (s.sleepers j);
      };
      own = own;
      state = kept;
      sleeps_on = slept;
      current = l.current;
    }
      where
        set_self : (k₁.threads w).state ≡ ready
        set_self = ground arith

        own : (k'.threads w).state ≡ ready
        own = l.state w ∙ set_self

        kept : (y : ℕ) → w ≢ y → (k'.threads y).state ≡ (k.threads y).state
        kept y d =
            let e : (k₁.threads y).state ≡ (k.threads y).state = ground arith in l.state y ∙ e

        slept : (y : ℕ) → (k'.threads y).sleeps_on ≡ (k.threads y).sleeps_on
        slept y =
            let e : (k₁.threads y).sleeps_on ≡ (k.threads y).sleeps_on = ground arith in
            l.sleeps_on y ∙ e

        next_kept :
            (y : ℕ) → w ≢ y → (k.threads y).sleeps_on ≢ 0 → (k'.threads y).next ≡ (k.threads y).next
        next_kept y d v =
            let e : (k₁.threads y).next ≡ (k.threads y).next = ground arith in
            l.next y (NotIn-Ready_of_waiting k ts y v s.ready_list) d ∙ e
