-- ===== src/Kernel/Scheduler/ReadyList.antt =====
-- The ready list of kudos/kernel/scheduler.c as a queue of threads.
use aar.Base.{All-of}
use aar.Base.{
  ℕ, ◌<◌, ◌≡◌, refl, ◌≢◌, sym, List, [], ◌∷◌, ◌++◌, arith, NotIn, Distinct, All, All-append,
  Distinct-append_one, done, Returns, subst, if◌then◌else◌,
}
use aar.Base.Int.{ℤ, pos, negsuc, eq_ℤ}
use aar.Kernel.{Kernel, ready, max_threads, no_thread, set_next}
use aar.Kernel.Chain.{Chain, LastIs, Chain-link, Chain-agree, LastIs-append, ne_of_LastIs}
use aar.Kernel.Scheduler.{add_to_ready_list, remove_first_ready}

-- The ready list of `k` links the threads `ts`, oldest first.
pub record Queued (k : Kernel) (ts : List ℕ) : Type 0 where
  pub chain : Chain k.threads k.head ts
  pub ends : LastIs k.tail ts
  pub distinct : Distinct ts
  pub bounds : All (λ t. (0 < t) × (t < max_threads)) ts

-- Only the two ends and the `next` fields matter.
pub Queued-agree :
    (k k' : Kernel) (ts : List ℕ)
    → ((x : ℕ) → (k'.threads x).next ≡ (k.threads x).next)
    → k'.head ≡ k.head
    → k'.tail ≡ k.tail
    → Queued k ts
    → Queued k' ts
Queued-agree k k' ts f h t q = record {
  chain = rw h (
      Chain-agree k.threads k'.threads k.head ts
        (All-of (λ x. (k'.threads x).next ≡ (k.threads x).next) ts f) q.chain);
  ends = subst (λ z. LastIs z ts) (sym t) q.ends;
  distinct = q.distinct;
  bounds = q.bounds;
}

-- What stays as it was when the thread `t` is put behind the queue `ts`.
pub record Linked (k : Kernel) (ts : List ℕ) (t : ℕ) (k' : Kernel) : Type 0 where
  pub state : (x : ℕ) → (k'.threads x).state ≡ (k.threads x).state
  pub sleeps_on : (x : ℕ) → (k'.threads x).sleeps_on ≡ (k.threads x).sleeps_on
  pub next : (x : ℕ) → NotIn x ts → t ≢ x → (k'.threads x).next ≡ (k.threads x).next
  pub current : k'.current ≡ k.current
  pub sleepq : k'.sleepq ≡ k.sleepq

abbrev pub Added : Kernel → List ℕ → ℕ → Kernel → Type 0
Added k ts t k' = Queued k' (ts ++ t ∷ []) × Linked k ts t k'

NotIn-last : (x l : ℕ) (y : ℕ) (ts : List ℕ) → LastIs (pos l) (y ∷ ts) → NotIn x (y ∷ ts) → l ≢ x
NotIn-last x l y [] e n = ground (arith, n.0)
NotIn-last x l y (z ∷ ts) e n = NotIn-last x l z ts e n.1

abbrev alone : ℕ → Kernel → Kernel
alone t k = set_next t no_thread (record k { head = pos t; tail = pos t })

abbrev behind : ℕ → ℕ → Kernel → Kernel
behind l t k = record (set_next t no_thread (set_next l (pos t) k)) { tail = pos t }

add-alone :
    (t m : ℕ) (k : Kernel)
    → k.tail ≡ negsuc m
    → 0 < t
    → t < max_threads
    → add_to_ready_list (pos t) k ≡ done (alone t k)
unfolding add_to_ready_list
add-alone t m k e p h = ground arith

add-behind :
    (t l : ℕ) (k : Kernel)
    → k.tail ≡ pos l
    → 0 < t
    → t < max_threads
    → l < max_threads
    → add_to_ready_list (pos t) k ≡ done (behind l t k)
unfolding add_to_ready_list
add-behind t l k e p h q = ground arith

alone-Added : (k : Kernel) (t : ℕ) → 0 < t → t < max_threads → Added k [] t (alone t k)
alone-Added k t p h = (queued, linked)
  where
    queued : Queued (alone t k) (t ∷ [])
    queued = record {
      chain = (refl, ground arith);
      ends = refl;
      distinct = (tt, tt);
      bounds = ((p, h), tt);
    }

    linked : Linked k [] t (alone t k)
    linked = record {
      state = λ x. ground arith;
      sleeps_on = λ x. ground arith;
      next = λ x n d. ground arith;
      current = refl;
      sleepq = refl;
    }

behind-Added :
    (k : Kernel) (x : ℕ) (ts : List ℕ) (l t : ℕ)
    → k.tail ≡ pos l
    → 0 < t
    → t < max_threads
    → NotIn t (x ∷ ts)
    → Queued k (x ∷ ts)
    → Added k (x ∷ ts) t (behind l t k)
behind-Added k x ts l t e p h n q = (queued, linked)
  where
    last : LastIs (pos l) (x ∷ ts)
    last = subst (λ z. LastIs z (x ∷ ts)) e q.ends

    queued : Queued (behind l t k) ((x ∷ ts) ++ t ∷ [])
    queued = record {
      chain = Chain-link k k.head t l x ts n q.distinct last q.chain;
      ends = LastIs-append t (x ∷ ts);
      distinct = Distinct-append_one t (x ∷ ts) n q.distinct;
      bounds =
          All-append (λ t. (0 < t) × (t < max_threads)) (x ∷ ts) (t ∷ []) q.bounds ((p, h), tt);
    }

    linked : Linked k (x ∷ ts) t (behind l t k)
    linked = record {
      state = λ y. ground arith;
      sleeps_on = λ y. ground arith;
      next = λ y m d. ground (arith, NotIn-last y l x ts last m);
      current = refl;
      sleepq = refl;
    }

LastIs-bound :
    (l x : ℕ) (ts : List ℕ)
    → LastIs (pos l) (x ∷ ts)
    → All (λ t. (0 < t) × (t < max_threads)) (x ∷ ts)
    → l < max_threads
LastIs-bound l x [] e b = ground (arith, b.0.1)
LastIs-bound l x (y ∷ ts) e b = LastIs-bound l y ts e b.1

not-LastIs : (m x : ℕ) (ts : List ℕ) → ¬ LastIs (negsuc m) (x ∷ ts)
not-LastIs m x [] e = cc
not-LastIs m x (y ∷ ts) e = not-LastIs m y ts e

add-Added :
    (k : Kernel) (ts : List ℕ) (t : ℕ) (z : ℤ)
    → k.tail ≡ z
    → 0 < t
    → t < max_threads
    → NotIn t ts
    → Queued k ts
    → Returns (add_to_ready_list (pos t) k) (Added k ts t)
add-Added k [] t (negsuc m) e p h n q = rw (add-alone t m k e p h) (alone-Added k t p h)
add-Added k [] t (pos l) e p h n q = cc (q.ends, e)
add-Added k (x ∷ ts) t (negsuc m) e p h n q =
    absurd (not-LastIs m x ts (subst (λ z. LastIs z (x ∷ ts)) e q.ends))
add-Added k (x ∷ ts) t (pos l) e p h n q =
    let last : LastIs (pos l) (x ∷ ts) = subst (λ z. LastIs z (x ∷ ts)) e q.ends in
    rw (add-behind t l k e p h (LastIs-bound l x ts last q.bounds))
      (behind-Added k x ts l t e p h n q)

-- On a well-formed ready list scheduler_add_to_ready_list always returns for a thread of the table
-- other than the idle thread that is not on the list: the thread becomes the last of the list, no
-- thread's state or resource changes, and nor does the link of a thread off the list.
pub add_to_ready_list-Added :
    (k : Kernel) (ts : List ℕ) (t : ℕ)
    → 0 < t
    → t < max_threads
    → NotIn t ts
    → Queued k ts
    → Returns (add_to_ready_list (pos t) k) (Added k ts t)
add_to_ready_list-Added k ts t p h n q = add-Added k ts t k.tail refl p h n q

abbrev popped : ℕ → Kernel → Kernel
popped t k = record k {
  tail = if eq_ℤ k.tail (pos t) then no_thread else k.tail;
  head = (k.threads t).next;
}

remove-popped :
    (t : ℕ) (k : Kernel)
    → k.head ≡ pos t
    → 0 < t
    → t < max_threads
    → (k.threads t).state ≡ ready
    → remove_first_ready k ≡ done (t, popped t k)
unfolding remove_first_ready
remove-popped t k e p h r = ground arith

-- The tail is reset only if the list becomes empty.
LastIs-popped :
    (z : ℤ) (t : ℕ) (ts : List ℕ)
    → NotIn t ts
    → LastIs z (t ∷ ts)
    → LastIs (if eq_ℤ z (pos t) then no_thread else z) ts
LastIs-popped z t [] n e = ground arith
LastIs-popped (negsuc m) t (y ∷ ts) n e = absurd (not-LastIs m y ts e)
LastIs-popped (pos l) t (y ∷ ts) n e =
    let kept : (if eq_ℤ (pos l) (pos t) then no_thread else pos l) ≡ pos l =
      ground (arith, ne_of_LastIs t l y ts n e) in
    subst (λ z. LastIs z (y ∷ ts)) (sym kept) e

-- The first thread comes off, if it is ready.
pub remove_first_ready-cons :
    (k : Kernel) (t : ℕ) (ts : List ℕ)
    → Queued k (t ∷ ts)
    → (k.threads t).state ≡ ready
    → Returns (remove_first_ready k) (λ r.
      (r.0 ≡ t)
      × Queued r.1 ts
      × (r.1.threads ≡ k.threads)
      × (r.1.current ≡ k.current)
      × (r.1.sleepq ≡ k.sleepq))
remove_first_ready-cons k t ts q e =
    rw (remove-popped t k q.chain.0 q.bounds.0.0 q.bounds.0.1 e) (refl, queued, refl, refl, refl)
  where
    queued : Queued (popped t k) ts
    queued = record {
      chain = q.chain.1;
      ends = LastIs-popped k.tail t ts q.distinct.0 q.ends;
      distinct = q.distinct.1;
      bounds = q.bounds.1;
    }

-- From an empty list comes the idle thread.
pub remove_first_ready-nil : (k : Kernel) → Queued k [] → remove_first_ready k ≡ done (0, k)
unfolding remove_first_ready
remove_first_ready-nil k q = ground (arith, q.chain)
