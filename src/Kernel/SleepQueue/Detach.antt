-- ===== src/Kernel/SleepQueue/Detach.antt =====
-- Taking a thread out of a sleep queue, as sleepq_wake and sleepq_wake_all of kudos/kernel/sleepq.c do.
use aar.Base.{
  ℕ, ◌<◌, ◌≡◌, refl, ◌≢◌, sym, subst, ◌∙◌, List, [], ◌∷◌, ◌++◌, NotIn, NotIn-of_Distinct,
  Distinct-remove, All-remove, All, All-mono, All-zip, All-of_NotIn, ℕ_discrete, update, update_ne,
  update_self, arith,
}
use aar.Base.Int.{ℤ, pos}
use aar.Kernel.{Kernel, no_thread}
use aar.Kernel.Chain.{Chain-update, Chain-unlink, LastIs}
use aar.Kernel.Scheduler.Retire.{IsRunnable}
use aar.Kernel.SleepQueue.{sleepq_hash, unlink, wait_for}
use aar.Kernel.SleepQueue.Buckets.{
  Bucket, Sleepers, WaitsAt, SameLinks, Bucket-agree, IsTid, last_of,
}
use aar.Kernel.SleepQueue.Frame.{Same, Sound, Ready-agree}

-- The thread before the one that is woken.
pub last_of-cons :
    (z : ℤ) (x : ℕ) (xs : List ℕ) → (p : ℕ) × (last_of z (x ∷ xs) ≡ pos p) × LastIs (pos p) (x ∷ xs)
last_of-cons z x [] = (x, refl, refl)
last_of-cons z x (y ∷ xs) = last_of-cons (pos x) y xs

-- The kernel with `w` taken out of the queue at `h` and its links cleared.
abbrev pub detached : ℕ → ℤ → ℕ → Kernel → Kernel
detached h prev w k = wait_for w 0 (unlink h prev w k)

-- What taking out `w` leaves alone, for the threads of every list.
pub record Detached (k : Kernel) (h : ℕ) (w : ℕ) (k' : Kernel) : Type 0 where
  pub cleared : (k'.threads w).sleeps_on ≡ 0
  pub sleeps_on : (y : ℕ) → w ≢ y → (k'.threads y).sleeps_on ≡ (k.threads y).sleeps_on
  pub state : (y : ℕ) → (k'.threads y).state ≡ (k.threads y).state
  pub next : (y : ℕ) → w ≢ y → ¬ WaitsAt k h y → (k'.threads y).next ≡ (k.threads y).next
  pub sleepq : (j : ℕ) → h ≢ j → k'.sleepq j ≡ k.sleepq j
  pub head : k'.head ≡ k.head
  pub tail : k'.tail ≡ k.tail
  pub current : k'.current ≡ k.current

pub detached-first : (k : Kernel) (h w : ℕ) → Detached k h w (detached h no_thread w k)
detached-first k h w = record {
  cleared = ground arith;
  sleeps_on = λ y d. ground arith;
  state = λ y. ground arith;
  next = λ y d n. ground arith;
  sleepq = λ j d. update_ne k.sleepq h j _ d;
  head = refl;
  tail = refl;
  current = refl;
}

pub detached-behind :
    (k : Kernel) (h p w : ℕ) → 0 < p → WaitsAt k h p → Detached k h w (detached h (pos p) w k)
detached-behind k h p w z q = record {
  cleared = ground arith;
  sleeps_on = λ y d. ground arith;
  state = λ y. ground arith;
  next = λ y d n. let other : p ≢ y = λ e. n (subst (WaitsAt k h) e q) in ground arith;
  sleepq = λ j d. ground arith;
  head = ground arith;
  tail = ground arith;
  current = ground arith;
}

waiting-Detached :
    (k k' : Kernel) (h w : ℕ) (ts : List ℕ)
    → Detached k h w k'
    → NotIn w ts
    → All (WaitsAt k h) ts
    → All (WaitsAt k' h) ts
waiting-Detached k k' h w ts d n a =
    All-zip (λ y. w ≢ y) (WaitsAt k h) (WaitsAt k' h) ts
      (λ y e q. (rw (d.sleeps_on y e) q.0, rw (d.sleeps_on y e) q.1)) (All-of_NotIn w ts n) a

-- The queue of `w` without `w`.
pub Bucket-detached_first :
    (k : Kernel) (h w : ℕ) (post : List ℕ)
    → Bucket k h (w ∷ post)
    → Bucket (detached h no_thread w k) h post
Bucket-detached_first k h w post b = record {
  chain =
      rw (update_self k.sleepq h (k.threads w).next)
        (Chain-update k.threads (k.threads w).next post w _ b.distinct.0 b.chain.1);
  distinct = b.distinct.1;
  bounds = b.bounds.1;
  waiting =
      waiting-Detached k (detached h no_thread w k) h w post (detached-first k h w) b.distinct.0
        b.waiting.1;
}

pub Bucket-detached_behind :
    (k : Kernel) (h w p x : ℕ) (xs post : List ℕ)
    → LastIs (pos p) (x ∷ xs)
    → 0 < p
    → p ≢ w
    → WaitsAt k h p
    → Bucket k h ((x ∷ xs) ++ w ∷ post)
    → Bucket (detached h (pos p) w k) h ((x ∷ xs) ++ post)
Bucket-detached_behind k h w p x xs post e z ne q b = record {
  chain = rw queue_kept (
      Chain-unlink k.threads (detached h (pos p) w k).threads (k.sleepq h) w p x xs post
        (λ y d d'. ground arith) (ground arith) b.distinct e b.chain);
  distinct = Distinct-remove w (x ∷ xs) post b.distinct;
  bounds = All-remove IsTid w (x ∷ xs) post b.bounds;
  waiting =
      waiting-Detached k (detached h (pos p) w k) h w ((x ∷ xs) ++ post)
        (detached-behind k h p w z q) (NotIn-of_Distinct w (x ∷ xs) post b.distinct)
        (All-remove (WaitsAt k h) w (x ∷ xs) post b.waiting);
}
  where
    queue_kept : (detached h (pos p) w k).sleepq h ≡ k.sleepq h
    queue_kept = ground arith

-- All queues once `w` is out of its own.
pub Sound-Detached :
    (k k' : Kernel) (h w : ℕ) (ts q : List ℕ) (bs : ℕ → List ℕ)
    → Detached k h w k'
    → WaitsAt k h w
    → Bucket k' h q
    → Sound k ts bs
    → Sound k' ts (update bs h q)
Sound-Detached k k' h w ts q bs d a b s = record {
  ready_list =
      Ready-agree k k' ts d.head d.tail
        (All-mono (IsRunnable k) (Same k k') ts runnable_same s.ready_list.states) s.ready_list;
  sleepers = sleepers;
}
  where
    runnable_same : (y : ℕ) → IsRunnable k y → Same k k' y
    runnable_same y r =
        let other : w ≢ y = λ e. a.0 (subst (λ t. (k.threads t).sleeps_on ≡ 0) (sym e) r.1) in
        (d.next y other (λ v. v.0 r.1), d.sleeps_on y other, d.state y)

    waiting_same : (j y : ℕ) → h ≢ j → WaitsAt k j y → SameLinks k k' y
    waiting_same j y n v =
        let at : ℕ → Type 0 = λ t. sleepq_hash (k.threads t).sleeps_on ≡ j in
        let other : w ≢ y = λ e. n (sym a.1 ∙ subst at (sym e) v.1) in
        (d.next y other (λ u. n (sym u.1 ∙ v.1)), d.sleeps_on y other)

    sleepers : Sleepers k' (update bs h q)
    sleepers j = elim (ℕ_discrete h j) [
      | yes e ↦ subst (λ i. Bucket k' i (update bs h q i)) e (rw (update_self bs h q) b)
      | no n ↦ rw (update_ne bs h j q n) (
          Bucket-agree k k' j (bs j) (d.sleepq j n)
            (All-mono (WaitsAt k j) (SameLinks k k') (bs j) (λ y v. waiting_same j y n v)
              (s.sleepers j).waiting)
            (s.sleepers j))
    ]
