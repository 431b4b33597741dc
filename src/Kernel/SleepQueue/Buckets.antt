-- ===== src/Kernel/SleepQueue/Buckets.antt =====
-- The hash table of kudos/kernel/sleepq.c as a list of waiting threads for each hash value.
use aar.Kernel.Chain.{LastIs}
use aar.Base.{
  ℕ, zero, suc, ◌<◌, ◌≡◌, refl, ◌≢◌, subst, true, List, [], ◌∷◌, ◌++◌, arith, Distinct, All,
  All-zip, All-mono, length, none, done,
}
use aar.Base.Int.{ℤ, pos, negsuc, is_neg}
use aar.Kernel.{Kernel, Thread, max_threads}
use aar.Kernel.Chain.{Chain, Chain-agree}
use aar.Kernel.SleepQueue.{link, sleepq_hash, find_last, seek}

abbrev pub IsTid : ℕ → Type 0
IsTid t = (0 < t) × (t < max_threads)

abbrev pub WaitsAt : Kernel → ℕ → ℕ → Type 0
WaitsAt k h t = ((k.threads t).sleeps_on ≢ 0) × (sleepq_hash (k.threads t).sleeps_on ≡ h)

-- The queue at `h` links the threads `ts`, in the order in which they came.
pub record Bucket (k : Kernel) (h : ℕ) (ts : List ℕ) : Type 0 where
  pub chain : Chain k.threads (k.sleepq h) ts
  pub distinct : Distinct ts
  pub bounds : All IsTid ts
  pub waiting : All (WaitsAt k h) ts

-- All the queues.
abbrev pub Sleepers : Kernel → (ℕ → List ℕ) → Type 0
Sleepers k bs = (h : ℕ) → Bucket k h (bs h)

abbrev pub SameLinks : Kernel → Kernel → ℕ → Type 0
SameLinks k k' x =
    ((k'.threads x).next ≡ (k.threads x).next)
    × ((k'.threads x).sleeps_on ≡ (k.threads x).sleeps_on)

-- A queue stays as it is if its threads keep their links.
pub Bucket-agree :
    (k k' : Kernel) (h : ℕ) (ts : List ℕ)
    → k'.sleepq h ≡ k.sleepq h
    → All (SameLinks k k') ts
    → Bucket k h ts
    → Bucket k' h ts
Bucket-agree k k' h ts e a b = record {
  chain = rw e (
      Chain-agree k.threads k'.threads (k.sleepq h) ts
        (All-mono (SameLinks k k') (λ x. (k'.threads x).next ≡ (k.threads x).next) ts (λ x s. s.0)
          a)
        b.chain);
  distinct = b.distinct;
  bounds = b.bounds;
  waiting =
      All-zip (SameLinks k k') (WaitsAt k h) (WaitsAt k' h) ts (λ x s w. (rw s.1 w.0, rw s.1 w.1)) a
        b.waiting;
}

pub link-neg : (z : ℤ) → is_neg z ≡ true → link z ≡ none
link-neg (pos n) h = cc
link-neg (negsuc n) h = refl

-- The last thread of a queue, or the one given if it is empty.
abbrev pub last_of : ℤ → List ℕ → ℤ
last_of z [] = z
last_of z (t ∷ ts) = last_of (pos t) ts

-- The search passes the threads that wait for something else, and stops at the first that waits
-- for `r`; it needs a round for each thread that it passes, and one more.
pub seek-found :
    (n : ℕ) (f : ℕ → Thread) (r : ℕ) (prev first : ℤ) (pre post : List ℕ) (w : ℕ)
    → length pre < n
    → Chain f first (pre ++ w ∷ post)
    → All IsTid (pre ++ w ∷ post)
    → All (λ t. (f t).sleeps_on ≢ r) pre
    → (f w).sleeps_on ≡ r
    → seek n f r prev first ≡ done (last_of prev pre, pos w)
unfolding seek
seek-found zero f r prev first pre post w h c b a e = absurd (omega arith)
seek-found (suc n) f r prev first [] post w h c b a e = ground (arith, c.0, b.0)
seek-found (suc n) f r prev first (t ∷ pre) post w h c b a e = ground (
  arith,
  c.0,
  b.0,
  a.0,
  seek-found n f r (pos t) (f t).next pre post w (omega arith) c.1 b.1 a.1 e,
)

-- If no thread waits for `r`, the search ends behind the last one.
pub seek-missed :
    (n : ℕ) (f : ℕ → Thread) (r : ℕ) (prev first : ℤ) (ts : List ℕ)
    → length ts < n
    → Chain f first ts
    → All IsTid ts
    → All (λ t. (f t).sleeps_on ≢ r) ts
    → (m : ℕ) × (seek n f r prev first ≡ done (last_of prev ts, negsuc m))
unfolding seek
seek-missed zero f r prev first ts h c b a = absurd (omega arith)
seek-missed (suc n) f r prev (pos m) [] h c b a = cc
seek-missed (suc n) f r prev (negsuc m) [] h c b a = (m, refl)
seek-missed (suc n) f r prev first (t ∷ ts) h c b a =
    let (m, e) = seek-missed n f r (pos t) (f t).next ts (omega arith) c.1 b.1 a.1 in
    (m, ground (arith, c.0, b.0, a.0, e))

-- The walk along a queue ends at its last thread.
pub find_last-last :
    (n : ℕ) (f : ℕ → Thread) (t : ℕ) (ts : List ℕ)
    → length ts < n
    → Chain f (f t).next ts
    → All IsTid (t ∷ ts)
    → (p : ℕ) × (find_last n f t ≡ done p) × LastIs (pos p) (t ∷ ts)
unfolding find_last
find_last-last zero f t ts h c b = absurd (omega arith)
find_last-last (suc n) f t [] h c b = (t, ground (arith, b.0, link-neg (f t).next c), refl)
find_last-last (suc n) f t (u ∷ ts) h c b =
    let (p, e, l) = find_last-last n f u ts (omega arith) c.1 b.1 in
    (p, ground (arith, c.0, b.0, b.1.0, e), l)

-- What holds of all threads holds of the last.
pub All-last :
    (P : ℕ → Type 0) (p x : ℕ) (xs : List ℕ) → LastIs (pos p) (x ∷ xs) → All P (x ∷ xs) → P p
All-last P p x [] e a = let here : x ≡ p = ground arith in subst P here a.0
All-last P p x (y ∷ xs) e a = All-last P p y xs e a.1
