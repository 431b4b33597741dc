-- ===== src/Kernel/SleepQueue/Frame.antt =====
-- The ready list and the sleep queues together, and the fields of the thread table that each rests on.
use aar.Kernel.{ThreadState, set_state}
use aar.Base.{ap}
use aar.Base.{Bool, refl}
use aar.Base.{update_self, ℕ_discrete}
use aar.Kernel.SleepQueue.Buckets.{Sleepers}
use aar.Base.{◌≢◌}
use aar.Base.{
  ℕ, ◌<◌, ◌≡◌, sym, subst, ◌∙◌, List, NotIn, All, All-mono, All-zip, All-of_NotIn, All-of,
  NotIn-of_All, update, update_ne, length, arith, ◌∷◌,
}
use aar.Base.Pigeonhole.{length-le_of_Distinct}
use aar.Kernel.{Kernel, max_threads}
use aar.Kernel.Chain.{Chain-agree, LastIs}
use aar.Kernel.Scheduler.Retire.{Ready, IsRunnable}
use aar.Kernel.SleepQueue.Buckets.{Bucket, WaitsAt, SameLinks, Bucket-agree, IsTid}
use aar.Kernel.SleepQueue.{sleepq_hash}

-- The fields of the thread `x` on which the lists rest are the same.
abbrev pub Same : Kernel → Kernel → ℕ → Type 0
Same k k' x =
    ((k'.threads x).next ≡ (k.threads x).next)
    × ((k'.threads x).sleeps_on ≡ (k.threads x).sleeps_on)
    × ((k'.threads x).state ≡ (k.threads x).state)

pub Ready-agree :
    (k k' : Kernel) (ts : List ℕ)
    → k'.head ≡ k.head
    → k'.tail ≡ k.tail
    → All (Same k k') ts
    → Ready k ts
    → Ready k' ts
Ready-agree k k' ts h t a r = record {
  queued = record {
    chain = rw h (
        Chain-agree k.threads k'.threads k.head ts
          (All-mono (Same k k') (λ x. (k'.threads x).next ≡ (k.threads x).next) ts (λ x s. s.0) a)
          r.queued.chain);
    ends = subst (λ z. LastIs z ts) (sym t) r.queued.ends;
    distinct = r.queued.distinct;
    bounds = r.queued.bounds;
  };
  states =
      All-zip (Same k k') (IsRunnable k) (IsRunnable k') ts (λ x s w. (s.2 ∙ w.0, s.1 ∙ w.1)) a
        r.states;
}

-- A thread that waits for nothing is in no sleep queue, and one of another queue is not in this one.
pub NotIn-Bucket_of_awake :
    (k : Kernel) (h : ℕ) (ts : List ℕ) (t : ℕ)
    → (k.threads t).sleeps_on ≡ 0
    → Bucket k h ts
    → NotIn t ts
NotIn-Bucket_of_awake k h ts t e b = NotIn-of_All (WaitsAt k h) t ts b.waiting (λ w. w.0 e)

pub NotIn-Bucket_of_other :
    (k : Kernel) (h : ℕ) (ts : List ℕ) (t : ℕ)
    → sleepq_hash (k.threads t).sleeps_on ≢ h
    → Bucket k h ts
    → NotIn t ts
NotIn-Bucket_of_other k h ts t n b = NotIn-of_All (WaitsAt k h) t ts b.waiting (λ w. n w.1)

-- A thread that waits is not on the ready list.
pub NotIn-Ready_of_waiting :
    (k : Kernel) (ts : List ℕ) (t : ℕ) → (k.threads t).sleeps_on ≢ 0 → Ready k ts → NotIn t ts
NotIn-Ready_of_waiting k ts t n r = NotIn-of_All (IsRunnable k) t ts r.states (λ w. n w.1)

-- The idle thread is in no queue, so 31 threads are the most that one can hold.
pub length-Bucket : (k : Kernel) (h : ℕ) (ts : List ℕ) → Bucket k h ts → length ts < max_threads
length-Bucket k h ts b =
    length-le_of_Distinct max_threads (0 ∷ ts)
      (NotIn-of_All IsTid 0 ts b.bounds (λ p. omega arith), b.distinct)
      (omega arith, All-mono IsTid (λ x. x < max_threads) ts (λ x p. p.1) b.bounds)

-- The ready list and the sleep queues hold these threads.
pub record Sound (k : Kernel) (ts : List ℕ) (bs : ℕ → List ℕ) : Type 0 where
  pub ready_list : Ready k ts
  pub sleepers : Sleepers k bs

-- Queues and ready list are kept where no thread but `c`, and one that waits at `h`, changes.
pub Sleepers-update :
    (k k' : Kernel) (c h : ℕ) (q : List ℕ) (bs : ℕ → List ℕ)
    → ((y : ℕ) → c ≢ y → sleepq_hash (k.threads y).sleeps_on ≢ h → SameLinks k k' y)
    → ((j : ℕ) → h ≢ j → k'.sleepq j ≡ k.sleepq j)
    → (k.threads c).sleeps_on ≡ 0
    → Bucket k' h q
    → Sleepers k bs
    → Sleepers k' (update bs h q)
Sleepers-update k k' c h q bs same kept z b s j = elim (ℕ_discrete h j) [
  | yes e ↦ subst (λ i. Bucket k' i (update bs h q i)) e (rw (update_self bs h q) b)
  | no d ↦ rw (update_ne bs h j q d) (
      Bucket-agree k k' j (bs j) (kept j d)
        (All-zip (λ y. c ≢ y) (WaitsAt k j) (SameLinks k k') (bs j)
          (λ y p w. same y p (λ e. d (sym e ∙ w.1)))
          (All-of_NotIn c (bs j) (NotIn-Bucket_of_awake k j (bs j) c z (s j))) (s j).waiting)
        (s j))
]

pub Ready-update :
    (k k' : Kernel) (c : ℕ) (ts : List ℕ)
    → ((y : ℕ) → c ≢ y → (k.threads y).sleeps_on ≡ 0 → Same k k' y)
    → k'.head ≡ k.head
    → k'.tail ≡ k.tail
    → NotIn c ts
    → Ready k ts
    → Ready k' ts
Ready-update k k' c ts same h t n r =
    Ready-agree k k' ts h t
      (All-zip (λ y. c ≢ y) (IsRunnable k) (Same k k') ts (λ y p w. same y p w.1)
        (All-of_NotIn c ts n) r.states)
      r

-- The interrupt flag is no part of the lists.
pub Sound-interrupts :
    (k : Kernel) (b : Bool) (ts : List ℕ) (bs : ℕ → List ℕ)
    → Sound k ts bs
    → Sound (record k { interrupts = b }) ts bs
Sound-interrupts k b ts bs s = record {
  ready_list =
      Ready-agree k (record k { interrupts = b }) ts refl refl
        (All-of (Same k (record k { interrupts = b })) ts (λ x. (refl, refl, refl))) s.ready_list;
  sleepers = λ j.
      Bucket-agree k (record k { interrupts = b }) j (bs j) refl
        (All-of (SameLinks k (record k { interrupts = b })) (bs j) (λ x. (refl, refl)))
        (s.sleepers j);
}

pub Sound-agree :
    (k k' : Kernel) (ts : List ℕ) (bs : ℕ → List ℕ)
    → ((x : ℕ) → Same k k' x)
    → k'.head ≡ k.head
    → k'.tail ≡ k.tail
    → k'.sleepq ≡ k.sleepq
    → Sound k ts bs
    → Sound k' ts bs
Sound-agree k k' ts bs same h t q s = record {
  ready_list = Ready-agree k k' ts h t (All-of (Same k k') ts same) s.ready_list;
  sleepers = λ j.
      Bucket-agree k k' j (bs j) (ap (λ f. f j) q)
        (All-of (SameLinks k k') (bs j) (λ x. ((same x).0, (same x).1))) (s.sleepers j);
}

-- Nor is the state of a thread that is not on the ready list.
pub Sound-set_state :
    (k : Kernel) (c : ℕ) (st : ThreadState) (ts : List ℕ) (bs : ℕ → List ℕ)
    → NotIn c ts
    → Sound k ts bs
    → Sound (set_state c st k) ts bs
Sound-set_state k c st ts bs n s = record {
  ready_list =
      Ready-agree k (set_state c st k) ts refl refl
        (All-mono (λ y. c ≢ y) (Same k (set_state c st k)) ts
          (λ y d. (ground arith, ground arith, ground arith)) (All-of_NotIn c ts n))
        s.ready_list;
  sleepers = λ j.
      Bucket-agree k (set_state c st k) j (bs j) refl
        (All-of (SameLinks k (set_state c st k)) (bs j) (λ x. (ground arith, ground arith)))
        (s.sleepers j);
}
