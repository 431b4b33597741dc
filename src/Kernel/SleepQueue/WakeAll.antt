-- ===== src/Kernel/SleepQueue/WakeAll.antt =====
-- sleepq_wake_all of kudos/kernel/sleepq.c: the loop over a queue, some of whose threads wait for
-- something else and stay.
pub mod Round
pub mod Loop
use aar.Base.{
  ℕ, zero, suc, ◌<◌, ◌≡◌, refl, ◌≢◌, sym, ap, subst, ◌∙◌, ◌⊎◌, inl, inr, Bool, true, false, not,
  List, [], ◌∷◌, ◌++◌, arith, NotIn, NotIn-of_Distinct, NotIn-front, NotIn-back, NotIn-append,
  Distinct, Distinct-back, All, All-append, All-back, All-middle, All-mono, All-zip, All-of_NotIn,
  length, length-append, update, update_self, update_twice, update_same, ◌==◌, ==_self, ==_ne,
  if◌then◌else◌, ℕ_discrete, Bool-cases, Outcome, done, Returns, Returns-bind, Returns-mono, ◌>>=◌,
}
use aar.Base.Int.{ℤ, pos, negsuc, is_neg}
use aar.Kernel.{Kernel, Thread, max_threads, no_thread, is_sleeping}
use aar.Kernel.Chain.{Chain}
use aar.Kernel.SleepQueue.{sleepq_hash, link, seek, unlink, wake_thread, wake_loop, sleepq_wake_all}
use aar.Kernel.SleepQueue.Buckets.{
  Bucket, IsTid, WaitsAt, last_of, link-neg, seek-found, seek-missed,
}
use aar.Kernel.SleepQueue.Frame.{Sound, length-Bucket}
use aar.Kernel.SleepQueue.Wake.{Woken, unlinked-Woken}
use mathlib.Core.List.{append_assoc, append-nil}

-- The threads of a queue that wait for something other than `r`.
abbrev pub others : (ℕ → Thread) → ℕ → List ℕ → List ℕ
others f r [] = []
others f r (t ∷ ts) = if (f t).sleeps_on == r then others f r ts else t ∷ others f r ts

-- Those that wait for `r` and have gone to sleep.
abbrev pub woken : (ℕ → Thread) → ℕ → List ℕ → List ℕ
woken f r [] = []
woken f r (t ∷ ts) =
    if (f t).sleeps_on == r
    then if is_sleeping (f t).state then t ∷ woken f r ts else woken f r ts
    else woken f r ts

-- The kernel when all that wait for `r` among `post`, the rest of the queue behind `pre`, are woken.
pub record AllWoken (k : Kernel) (r : ℕ) (ts : List ℕ) (bs : ℕ → List ℕ) (pre post : List ℕ)
    (k' : Kernel) : Type 0 where
  pub sound :
      Sound k'
        (ts ++ woken k.threads r post)
        (update bs (sleepq_hash r) (pre ++ others k.threads r post))
  pub resources :
      All
        (λ t.
          (k'.threads t).sleeps_on
          ≡ (if (k.threads t).sleeps_on == r then 0 else (k.threads t).sleeps_on))
        post
  pub kept :
      (t : ℕ)
      → NotIn t post
      → ((k'.threads t).sleeps_on ≡ (k.threads t).sleeps_on)
        × ((k'.threads t).state ≡ (k.threads t).state)
  pub current : k'.current ≡ k.current

-- The next thread that waits for `r`, if there is one.
pub scan :
    (f : ℕ → Thread) (r : ℕ) (ts : List ℕ)
    → All (λ t. (f t).sleeps_on ≢ r) ts
      ⊎ ((mid : List ℕ) × (w : ℕ) × (post : List ℕ) × (ts ≡ mid ++ w ∷ post)
          × All (λ t. (f t).sleeps_on ≢ r) mid
          × ((f w).sleeps_on ≡ r))
scan f r [] = inl tt
scan f r (t ∷ ts) = elim (ℕ_discrete (f t).sleeps_on r) [
  | yes e ↦ inr ([], t, ts, refl, tt, e)
  | no n ↦ elim (scan f r ts) [
    | inl a ↦ inl (n, a)
    | inr (mid, w, post, q, a, e) ↦ inr (t ∷ mid, w, post, ap (◌∷◌ t) q, (n, a), e)
  ]
]

pub others_none :
    (f : ℕ → Thread) (r : ℕ) (ts us : List ℕ)
    → All (λ t. (f t).sleeps_on ≢ r) ts
    → others f r (ts ++ us) ≡ ts ++ others f r us
others_none f r [] us a = refl
others_none f r (t ∷ ts) us a = ground (arith, a.0, others_none f r ts us a.1)

pub woken_none :
    (f : ℕ → Thread) (r : ℕ) (ts us : List ℕ)
    → All (λ t. (f t).sleeps_on ≢ r) ts
    → woken f r (ts ++ us) ≡ woken f r us
woken_none f r [] us a = refl
woken_none f r (t ∷ ts) us a = ground (arith, a.0, woken_none f r ts us a.1)

pub last_of-append : (z : ℤ) (xs ys : List ℕ) → last_of z (xs ++ ys) ≡ last_of (last_of z xs) ys
last_of-append z [] ys = refl
last_of-append z (x ∷ xs) ys = last_of-append (pos x) xs ys

-- A chain goes on from where its rest begins.
pub Chain-restart :
    (f g : ℕ → Thread) (h z : ℤ) (xs ys : List ℕ)
    → Chain f h (xs ++ ys)
    → Chain g z ys
    → Chain f z ys
Chain-restart f g h z [] [] c d = d
Chain-restart f g h z [] (y ∷ ys) c d = (d.0, c.1)
Chain-restart f g h z (x ∷ xs) ys c d = Chain-restart f g (f x).next z xs ys c.1 d

pub Chain-rest :
    (f : ℕ → Thread) (z : ℤ) (xs : List ℕ) (w : ℕ) (ys : List ℕ)
    → Chain f z (xs ++ w ∷ ys)
    → Chain f (f w).next ys
Chain-rest f z [] w ys c = c.1
Chain-rest f z (x ∷ xs) w ys c = Chain-rest f (f x).next xs w ys c.1

pub woken-agree :
    (f g : ℕ → Thread) (r : ℕ) (ts : List ℕ)
    → All (λ t. ((g t).sleeps_on ≡ (f t).sleeps_on) × ((g t).state ≡ (f t).state)) ts
    → woken g r ts ≡ woken f r ts
woken-agree f g r [] a = refl
woken-agree f g r (t ∷ ts) a = rw (a.0.0, a.0.1, woken-agree f g r ts a.1)

pub others-agree :
    (f g : ℕ → Thread) (r : ℕ) (ts : List ℕ)
    → All (λ t. ((g t).sleeps_on ≡ (f t).sleeps_on) × ((g t).state ≡ (f t).state)) ts
    → others g r ts ≡ others f r ts
others-agree f g r [] a = refl
others-agree f g r (t ∷ ts) a = rw (a.0.0, others-agree f g r ts a.1)

-- The last of the rounds: nobody is left that waits for `r`.
pub loop-ends :
    (n : ℕ) (k : Kernel) (r : ℕ) (prev first : ℤ) (post : List ℕ)
    → length post < n
    → length post < max_threads
    → Chain k.threads first post
    → All IsTid post
    → All (λ t. (k.threads t).sleeps_on ≢ r) post
    → wake_loop n r prev first k ≡ done k
unfolding wake_loop
loop-ends zero k r prev first post h l c b a = absurd (omega arith)
loop-ends (suc n) k r prev first [] h l c b a = rw (link-neg first c, wake_loop)
loop-ends (suc zero) k r prev first (t ∷ ts) h l c b a = absurd (omega arith)
loop-ends (suc (suc n)) k r prev first (t ∷ ts) h l c b a =
    let (m, e) = seek-missed max_threads k.threads r prev first (t ∷ ts) l c b a in
    ground (arith, c.0, b.0.0, e)

pub Chain-head :
    (f : ℕ → Thread) (z : ℤ) (mid : List ℕ) (w : ℕ) (post : List ℕ)
    → Chain f z (mid ++ w ∷ post)
    → All IsTid (mid ++ w ∷ post)
    → (x : ℕ) × (z ≡ pos x) × (0 < x)
Chain-head f z [] w post c b = (w, c.0, b.0.0)
Chain-head f z (x ∷ mid) w post c b = (x, c.0, b.0.0)

pub loop-wakes :
    (n : ℕ) (k : Kernel) (r x w : ℕ) (prev prev' first : ℤ)
    → first ≡ pos x
    → 0 < x
    → 0 < w
    → seek max_threads k.threads r prev first ≡ done (prev', pos w)
    → wake_loop (suc n) r prev first k ≡ (
        wake_thread w (unlink (sleepq_hash r) prev' w k) >>= λ k'.
        wake_loop n r prev' (k.threads w).next k')
unfolding wake_loop
loop-wakes n k r x w prev prev' first f p q e = ground arith
