-- ===== src/Kernel/SleepQueue/Wake.antt =====
-- sleepq_wake of kudos/kernel/sleepq.c, with and without a waiter.
use aar.Base.{All-front, NotIn-front}
use aar.Kernel.SleepQueue.Enqueue.{Enqueued, enqueue-Enqueued}
use aar.Kernel.SleepQueue.Detach.{
  Detached, detached, last_of-cons, detached-first, detached-behind, Bucket-detached_first,
  Bucket-detached_behind, Sound-Detached,
}
use aar.Base.{ap}
use aar.Base.{
  ℕ, ◌<◌, ◌≡◌, ◌≢◌, sym, subst, ◌∙◌, true, false, List, [], ◌∷◌, ◌++◌, done, Returns, Returns-mono,
  NotIn-of_Distinct, All-middle, All, All-of_NotIn, Bool-cases, inl, inr, update, length,
  length-append, arith, if◌then◌else◌,
}
use aar.Base.Int.{ℤ, pos, negsuc}
use aar.Kernel.{Kernel, ready, max_threads, no_thread, set_state, is_sleeping}
use aar.Kernel.Scheduler.{add_to_ready_list}
use aar.Kernel.SleepQueue.{sleepq_hash, seek, unlink, wait_for, wake_thread, sleepq_wake}
use aar.Kernel.SleepQueue.Buckets.{
  Bucket, WaitsAt, IsTid, All-last, last_of, seek-found, seek-missed,
}
use aar.Kernel.SleepQueue.Frame.{Sound, NotIn-Ready_of_waiting, length-Bucket}

-- What is left once `w` has been woken out of the queue at `h`, of which `q` remains.
pub record Woken (k : Kernel) (ts : List ℕ) (bs : ℕ → List ℕ) (h : ℕ) (q : List ℕ) (w : ℕ)
    (k' : Kernel) : Type 0 where
  pub sound :
      Sound k' (if is_sleeping (k.threads w).state then ts ++ w ∷ [] else ts) (update bs h q)
  pub cleared : (k'.threads w).sleeps_on ≡ 0
  pub own :
      (k'.threads w).state
      ≡ (if is_sleeping (k.threads w).state then ready else (k.threads w).state)
  pub state : (x : ℕ) → w ≢ x → (k'.threads x).state ≡ (k.threads x).state
  pub sleeps_on : (x : ℕ) → w ≢ x → (k'.threads x).sleeps_on ≡ (k.threads x).sleeps_on
  pub current : k'.current ≡ k.current

wake-asleep :
    (t : ℕ) (k : Kernel)
    → is_sleeping (k.threads t).state ≡ true
    → wake_thread t k ≡ add_to_ready_list (pos t) (set_state t ready (wait_for t 0 k))
unfolding wake_thread
wake-asleep t k e = rw e

wake-awake :
    (t : ℕ) (k : Kernel)
    → is_sleeping (k.threads t).state ≡ false
    → wake_thread t k ≡ done (wait_for t 0 k)
unfolding wake_thread
wake-awake t k e = rw e

-- Waking a thread that has been taken out of its queue: `u` is the kernel after `unlink`.
wake_thread-Woken :
    (k u : Kernel) (h w : ℕ) (ts q : List ℕ) (bs : ℕ → List ℕ)
    → IsTid w
    → WaitsAt k h w
    → Detached k h w (wait_for w 0 u)
    → Sound k ts bs
    → Sound (wait_for w 0 u) ts (update bs h q)
    → Returns (wake_thread w u) (Woken k ts bs h q w)
wake_thread-Woken k u h w ts q bs b v d s s' = elim (Bool-cases (is_sleeping (k.threads w).state)) [
  | inl e ↦ rw (wake-asleep w u (ap is_sleeping same ∙ e)) (
      Returns-mono (add_to_ready_list (pos w) (set_state w ready (wait_for w 0 u)))
        (Enqueued (wait_for w 0 u) ts (update bs h q) w) (Woken k ts bs h q w)
        (enqueue-Enqueued (wait_for w 0 u) ts (update bs h q) w b d.cleared
          (NotIn-Ready_of_waiting k ts w v.0 s.ready_list) s')
        λ k' a. record {
          sound = rw e a.sound;
          cleared = a.sleeps_on w ∙ d.cleared;
          own = rw e a.own;
          state = λ x n. a.state x n ∙ d.state x;
          sleeps_on = λ x n. a.sleeps_on x ∙ d.sleeps_on x n;
          current = a.current ∙ d.current;
        })
  | inr e ↦ rw (wake-awake w u (ap is_sleeping same ∙ e)) (record {
    sound = rw e s';
    cleared = d.cleared;
    own = rw e (d.state w);
    state = λ x n. d.state x;
    sleeps_on = d.sleeps_on;
    current = d.current;
  })
]
  where
    same : (u.threads w).state ≡ (k.threads w).state
    same =
        let e : ((wait_for w 0 u).threads w).state ≡ (u.threads w).state = ground arith in
        sym e ∙ d.state w

wake-found :
    (r w : ℕ) (prev : ℤ) (k : Kernel)
    → 0 < w
    → seek max_threads k.threads r no_thread (k.sleepq (sleepq_hash r)) ≡ done (prev, pos w)
    → sleepq_wake r k ≡ wake_thread w (unlink (sleepq_hash r) prev w k)
unfolding sleepq_wake
wake-found r w prev k p e = ground arith

wake-none :
    (r m : ℕ) (prev : ℤ) (k : Kernel)
    → seek max_threads k.threads r no_thread (k.sleepq (sleepq_hash r)) ≡ done (prev, negsuc m)
    → sleepq_wake r k ≡ done k
unfolding sleepq_wake
wake-none r m prev k e = rw e

pub unlinked-Woken :
    (k : Kernel) (h w : ℕ) (pre post ts : List ℕ) (bs : ℕ → List ℕ)
    → WaitsAt k h w
    → Bucket k h (pre ++ w ∷ post)
    → Sound k ts bs
    → Returns
        (wake_thread w (unlink h (last_of no_thread pre) w k))
        (Woken k ts bs h (pre ++ post) w)
unlinked-Woken k h w [] post ts bs v b s =
    let d = detached-first k h w in
    wake_thread-Woken k (unlink h no_thread w k) h w ts post bs b.bounds.0 v d s (
      Sound-Detached k (detached h no_thread w k) h w ts post bs d v
        (Bucket-detached_first k h w post b) s)
unlinked-Woken k h w (x ∷ xs) post ts bs v b s =
    let (p, e, l) = last_of-cons no_thread x xs in
    let n = NotIn-front w (x ∷ xs) post (NotIn-of_Distinct w (x ∷ xs) post b.distinct) in
    let ne : p ≢ w = λ f. All-last (λ y. w ≢ y) p x xs l (All-of_NotIn w (x ∷ xs) n) (sym f) in
    let tid : IsTid p = All-last IsTid p x xs l (All-front IsTid (x ∷ xs) (w ∷ post) b.bounds) in
    let at : WaitsAt k h p =
      All-last (WaitsAt k h) p x xs l (All-front (WaitsAt k h) (x ∷ xs) (w ∷ post) b.waiting) in
    let d = detached-behind k h p w tid.0 at in
    rw e (
      wake_thread-Woken k (unlink h (pos p) w k) h w ts ((x ∷ xs) ++ post) bs
        (All-middle IsTid w (x ∷ xs) post b.bounds) v d s
        (Sound-Detached k (detached h (pos p) w k) h w ts ((x ∷ xs) ++ post) bs d v
          (Bucket-detached_behind k h w p x xs post l tid.0 ne at b) s))

-- The rounds of the search are enough.
length-before :
    (k : Kernel) (h w : ℕ) (pre post : List ℕ)
    → Bucket k h (pre ++ w ∷ post)
    → length pre < max_threads
length-before k h w pre post b =
    omega (arith, length-Bucket k h (pre ++ w ∷ post) b, length-append pre (w ∷ post))

-- On well-formed queues sleepq_wake always returns if some thread waits for `r`: the first that
-- came is taken out of its queue and waits for nothing, and it becomes the last of the ready list
-- if it had gone to sleep; the others keep their places and their states.
pub sleepq_wake-Woken :
    (k : Kernel) (r w : ℕ) (pre post ts : List ℕ) (bs : ℕ → List ℕ)
    → Sound k ts bs
    → bs (sleepq_hash r) ≡ pre ++ w ∷ post
    → All (λ t. (k.threads t).sleeps_on ≢ r) pre
    → (k.threads w).sleeps_on ≡ r
    → Returns (sleepq_wake r k) (Woken k ts bs (sleepq_hash r) (pre ++ post) w)
sleepq_wake-Woken k r w pre post ts bs s q a e =
    let b : Bucket k (sleepq_hash r) (pre ++ w ∷ post) =
      subst (Bucket k (sleepq_hash r)) q (s.sleepers (sleepq_hash r)) in
    rw
      (wake-found r w (last_of no_thread pre) k (All-middle IsTid w pre post b.bounds).0 (
        seek-found max_threads k.threads r no_thread (k.sleepq (sleepq_hash r)) pre post w
          (length-before k (sleepq_hash r) w pre post b) b.chain b.bounds a e))
      (unlinked-Woken k (sleepq_hash r) w pre post ts bs
        (All-middle (WaitsAt k (sleepq_hash r)) w pre post b.waiting) b s)

-- If no thread of well-formed queues waits for `r`, sleepq_wake returns and changes nothing.
pub sleepq_wake-none :
    (k : Kernel) (r : ℕ) (ts : List ℕ) (bs : ℕ → List ℕ)
    → Sound k ts bs
    → All (λ t. (k.threads t).sleeps_on ≢ r) (bs (sleepq_hash r))
    → sleepq_wake r k ≡ done k
sleepq_wake-none k r ts bs s a =
    let b = s.sleepers (sleepq_hash r) in
    let (m, e) =
      seek-missed max_threads k.threads r no_thread (k.sleepq (sleepq_hash r)) (bs (sleepq_hash r))
        (length-Bucket k (sleepq_hash r) (bs (sleepq_hash r)) b) b.chain b.bounds a in
    wake-none r m (last_of no_thread (bs (sleepq_hash r))) k e
