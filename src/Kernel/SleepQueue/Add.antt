-- ===== src/Kernel/SleepQueue/Add.antt =====
-- sleepq_add of kudos/kernel/sleepq.c on well-formed sleep queues.
use aar.Kernel.Chain.{Chain-update}
use aar.Kernel.SleepQueue.Frame.{Sound, Sleepers-update, Ready-update}
use aar.Kernel.SleepQueue.Buckets.{All-last}
use aar.Base.{
  ℕ, ◌<◌, ◌≡◌, refl, ◌≢◌, sym, subst, false, List, [], ◌∷◌, ◌++◌, none, some, done, Returns, NotIn,
  All-zip, All-append, All-of_NotIn, Distinct-append_one, update, update_ne, arith,
}
use aar.Base.Int.{pos}
use aar.Kernel.{Kernel, max_threads, max_cpus, set_next}
use aar.Kernel.Chain.{Chain-extend, LastIs}
use aar.Kernel.SleepQueue.{sleepq_hash, link, find_last, wait_for, sleepq_add}
use aar.Kernel.SleepQueue.Buckets.{Bucket, WaitsAt, IsTid, link-neg, find_last-last}
use aar.Kernel.SleepQueue.Frame.{Same, NotIn-Bucket_of_awake, length-Bucket}

add-first :
    (cpu r : ℕ) (k : Kernel)
    → k.interrupts ≡ false
    → cpu < max_cpus
    → IsTid (k.current cpu)
    → link (k.sleepq (sleepq_hash r)) ≡ none
    → sleepq_add cpu r k
      ≡ done (record (wait_for (k.current cpu) r k) {
        sleepq = update k.sleepq (sleepq_hash r) (pos (k.current cpu));
      })
unfolding sleepq_add
add-first cpu r k i h b e = ground arith

add-behind :
    (cpu r : ℕ) (k : Kernel) (x p : ℕ)
    → k.interrupts ≡ false
    → cpu < max_cpus
    → IsTid (k.current cpu)
    → link (k.sleepq (sleepq_hash r)) ≡ some x
    → find_last max_threads (wait_for (k.current cpu) r k).threads x ≡ done p
    → sleepq_add cpu r k ≡ done (set_next p (pos (k.current cpu)) (wait_for (k.current cpu) r k))
unfolding sleepq_add
add-behind cpu r k x p i h b e f = ground arith

-- The queue of the resource, when it was empty.
Bucket-first :
    (k : Kernel) (c r : ℕ)
    → IsTid c
    → r ≢ 0
    → Bucket
        (record (wait_for c r k) { sleepq = update k.sleepq (sleepq_hash r) (pos c) })
        (sleepq_hash r)
        (c ∷ [])
Bucket-first k c r b n = record {
  chain = (ground arith, ground arith);
  distinct = (tt, tt);
  bounds = (b, tt);
  waiting = ((rw own n, rw own), tt);
}
  where
    own : ((wait_for c r k).threads c).sleeps_on ≡ r
    own = ground arith

-- The queue of the resource, when others waited.
Bucket-behind :
    (k : Kernel) (c r p x : ℕ) (xs : List ℕ)
    → IsTid c
    → r ≢ 0
    → (k.threads c).sleeps_on ≡ 0
    → LastIs (pos p) (x ∷ xs)
    → Bucket k (sleepq_hash r) (x ∷ xs)
    → Bucket (set_next p (pos c) (wait_for c r k)) (sleepq_hash r) ((x ∷ xs) ++ c ∷ [])
Bucket-behind k c r p x xs b n z e q = record {
  chain =
      Chain-extend k.threads k'.threads (k.sleepq (sleepq_hash r)) c p x xs (λ y d d'. ground arith)
        (ground arith) (ground (arith, ne)) apart q.distinct e q.chain;
  distinct = Distinct-append_one c (x ∷ xs) apart q.distinct;
  bounds = All-append IsTid (x ∷ xs) (c ∷ []) q.bounds (b, tt);
  waiting =
      All-append (WaitsAt k' (sleepq_hash r)) (x ∷ xs) (c ∷ [])
        (All-zip (λ y. c ≢ y) (WaitsAt k (sleepq_hash r)) (WaitsAt k' (sleepq_hash r)) (x ∷ xs)
          (λ y d w. (rw (kept y d) w.0, rw (kept y d) w.1)) (All-of_NotIn c (x ∷ xs) apart)
          q.waiting)
        ((rw own n, rw own), tt);
}
  where
    k' : Kernel
    k' = set_next p (pos c) (wait_for c r k)

    apart : NotIn c (x ∷ xs)
    apart = NotIn-Bucket_of_awake k (sleepq_hash r) (x ∷ xs) c z q

    ne : p ≢ c
    ne d =
        (All-last (WaitsAt k (sleepq_hash r)) p x xs e q.waiting).0
          (subst (λ t. (k.threads t).sleeps_on ≡ 0) (sym d) z)

    own : (k'.threads c).sleeps_on ≡ r
    own = ground arith

    kept : (y : ℕ) → c ≢ y → (k'.threads y).sleeps_on ≡ (k.threads y).sleeps_on
    kept y d = ground arith

-- What sleepq_add leaves alone.
pub record Joined (k : Kernel) (c r : ℕ) (k' : Kernel) : Type 0 where
  pub waits : (k'.threads c).sleeps_on ≡ r
  pub others : (x : ℕ) → c ≢ x → (k'.threads x).sleeps_on ≡ (k.threads x).sleeps_on
  pub state : (x : ℕ) → (k'.threads x).state ≡ (k.threads x).state
  pub current : k'.current ≡ k.current

-- sleepq_add, on a queue that is empty.
add-first-Sound :
    (cpu : ℕ) (k : Kernel) (r : ℕ) (ts : List ℕ) (bs : ℕ → List ℕ)
    → k.interrupts ≡ false
    → cpu < max_cpus
    → IsTid (k.current cpu)
    → (k.threads (k.current cpu)).sleeps_on ≡ 0
    → r ≢ 0
    → NotIn (k.current cpu) ts
    → Sound k ts bs
    → Bucket k (sleepq_hash r) []
    → Returns (sleepq_add cpu r k) (λ k'.
      Sound k' ts (update bs (sleepq_hash r) (k.current cpu ∷ [])) × Joined k (k.current cpu) r k')
add-first-Sound cpu k r ts bs i h b z n a s q =
    rw (add-first cpu r k i h b (link-neg (k.sleepq (sleepq_hash r)) q.chain)) (
      record {
        ready_list =
            Ready-update k k' (k.current cpu) ts
              (λ y d w. (ground arith, ground arith, ground arith)) refl refl a s.ready_list;
        sleepers =
            Sleepers-update k k' (k.current cpu) (sleepq_hash r) (k.current cpu ∷ []) bs
              (λ y d w. (ground arith, ground arith))
              (λ j d. update_ne k.sleepq (sleepq_hash r) j (pos (k.current cpu)) d) z
              (Bucket-first k (k.current cpu) r b n) s.sleepers;
      },
      record {
        waits = ground arith;
        others = λ x d. ground arith;
        state = λ x. ground arith;
        current = refl;
      },
    )
  where
    k' : Kernel
    k' = record (wait_for (k.current cpu) r k) {
      sleepq = update k.sleepq (sleepq_hash r) (pos (k.current cpu));
    }

-- sleepq_add, on a queue whose last thread is `p`.
behind-Sound :
    (k : Kernel) (c r p x : ℕ) (xs ts : List ℕ) (bs : ℕ → List ℕ)
    → IsTid c
    → (k.threads c).sleeps_on ≡ 0
    → r ≢ 0
    → NotIn c ts
    → Sound k ts bs
    → Bucket k (sleepq_hash r) (x ∷ xs)
    → LastIs (pos p) (x ∷ xs)
    → Sound
        (set_next p (pos c) (wait_for c r k))
        ts
        (update bs (sleepq_hash r) ((x ∷ xs) ++ c ∷ []))
      × Joined k c r (set_next p (pos c) (wait_for c r k))
behind-Sound k c r p x xs ts bs b z n a s q e = (
  record {
    ready_list =
        Ready-update k k' c ts (λ y d w. same y d (λ f. last.0 (subst awake (sym f) w))) refl refl a
          s.ready_list;
    sleepers =
        Sleepers-update k k' c (sleepq_hash r) ((x ∷ xs) ++ c ∷ []) bs
          (λ y d w. let t = same y d (λ f. w (subst at (f) last.1)) in (t.0, t.1)) (λ j d. refl) z
          (Bucket-behind k c r p x xs b n z e q) s.sleepers;
  },
  record {
    waits = ground arith;
    others = λ y d. ground arith;
    state = λ y. ground arith;
    current = refl;
  },
)
  where
    k' : Kernel
    k' = set_next p (pos c) (wait_for c r k)

    last : WaitsAt k (sleepq_hash r) p
    last = All-last (WaitsAt k (sleepq_hash r)) p x xs e q.waiting

    awake : ℕ → Type 0
    awake t = (k.threads t).sleeps_on ≡ 0

    at : ℕ → Type 0
    at t = sleepq_hash (k.threads t).sleeps_on ≡ sleepq_hash r

    same : (y : ℕ) → c ≢ y → p ≢ y → Same k k' y
    same y d d' = (ground arith, ground arith, ground arith)

walk_to_last :
    (k : Kernel) (c r x : ℕ) (xs : List ℕ)
    → (k.threads c).sleeps_on ≡ 0
    → Bucket k (sleepq_hash r) (x ∷ xs)
    → (p : ℕ) × (find_last max_threads (wait_for c r k).threads x ≡ done p)
      × LastIs (pos p) (x ∷ xs)
walk_to_last k c r x xs z q =
    let n = NotIn-Bucket_of_awake k (sleepq_hash r) (x ∷ xs) c z q in
    find_last-last max_threads (wait_for c r k).threads x xs
      (omega (arith, length-Bucket k (sleepq_hash r) (x ∷ xs) q))
      (Chain-update k.threads (k.sleepq (sleepq_hash r)) (x ∷ xs) c _ n q.chain).1 q.bounds

add-Sound :
    (cpu : ℕ) (k : Kernel) (r : ℕ) (ts : List ℕ) (bs : ℕ → List ℕ) (q : List ℕ)
    → k.interrupts ≡ false
    → cpu < max_cpus
    → IsTid (k.current cpu)
    → (k.threads (k.current cpu)).sleeps_on ≡ 0
    → r ≢ 0
    → NotIn (k.current cpu) ts
    → Sound k ts bs
    → Bucket k (sleepq_hash r) q
    → Returns (sleepq_add cpu r k) (λ k'.
      Sound k' ts (update bs (sleepq_hash r) (q ++ k.current cpu ∷ []))
      × Joined k (k.current cpu) r k')
add-Sound cpu k r ts bs [] i h b z n a s q = add-first-Sound cpu k r ts bs i h b z n a s q
add-Sound cpu k r ts bs (x ∷ xs) i h b z n a s q =
    let (p, f, e) = walk_to_last k (k.current cpu) r x xs z q in
    rw (add-behind cpu r k x p i h b (ground (arith, q.chain.0, q.bounds.0.0)) f)
      (behind-Sound k (k.current cpu) r p x xs ts bs b z n a s q e)

-- On well-formed lists sleepq_add, called with interrupts off by a thread other than the idle
-- thread that waits for nothing and is not on the ready list, always returns; the thread then
-- waits for `r` as the last of its sleep queue, and no other queue and no thread's state has
-- changed.
pub sleepq_add-Sound :
    (cpu : ℕ) (k : Kernel) (r : ℕ) (ts : List ℕ) (bs : ℕ → List ℕ)
    → k.interrupts ≡ false
    → cpu < max_cpus
    → IsTid (k.current cpu)
    → (k.threads (k.current cpu)).sleeps_on ≡ 0
    → r ≢ 0
    → NotIn (k.current cpu) ts
    → Sound k ts bs
    → Returns (sleepq_add cpu r k) (λ k'.
      Sound k' ts (update bs (sleepq_hash r) (bs (sleepq_hash r) ++ k.current cpu ∷ []))
      × Joined k (k.current cpu) r k')
sleepq_add-Sound cpu k r ts bs i h b z n a s =
    add-Sound cpu k r ts bs (bs (sleepq_hash r)) i h b z n a s (s.sleepers (sleepq_hash r))
