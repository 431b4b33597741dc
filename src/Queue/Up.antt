-- ===== src/Queue/Up.antt =====
-- queue_heap_up of OSM/Assignments/Third_Assignment/queue/queue.c.
use aar.Base.{
  ℕ, zero, suc, ◌<◌, ◌≤◌, ◌≡◌, refl, ◌≢◌, sym, subst, true, false, ◌&&◌, arith, ltb, ℕ_discrete,
  Bool-cases, inl, inr,
}
use aar.Base.Int.{ℤ, ltb_ℤ}
use aar.Queue.{parent, exchange, queue_heap_up}
use aar.Queue.Heap.{
  ◌≤ℤ◌, trans-≤ℤ, IsHeap, Exchanged, swap, exchange-first, exchange-second, exchange-other,
}

-- A heap but for the node `i`, whose parent is no less than its children.
pub record HeapBut (a : ℕ → ℤ) (n i : ℕ) : Type 0 where
  pub order : (j : ℕ) → 0 < j → j < n → i ≢ j → a j ≤ℤ a (parent j)
  pub around : (j : ℕ) → 0 < j → j < n → parent j ≡ i → 0 < i → a j ≤ℤ a (parent i)

HeapBut-IsHeap : (a : ℕ → ℤ) (n i : ℕ) → (0 < i → a i ≤ℤ a (parent i)) → HeapBut a n i → IsHeap a n
HeapBut-IsHeap a n i h b j p l = elim (ℕ_discrete i j) [
  | yes e ↦ subst (λ x. a x ≤ℤ a (parent x)) e (h (subst (λ x. 0 < x) (sym e) p))
  | no d ↦ b.order j p l d
]

-- One exchange with a smaller parent.
exchange-order :
    (a : ℕ → ℤ) (n i j : ℕ)
    → 0 < i
    → a (parent i) ≤ℤ a i
    → HeapBut a n i
    → 0 < j
    → j < n
    → parent i ≢ j
    → exchange (parent i) i a j ≤ℤ exchange (parent i) i a (parent j)
exchange-order a n i j z s b p l d = elim (ℕ_discrete i j) [
  | yes e ↦
      subst (λ x. exchange (parent i) i a x ≤ℤ exchange (parent i) i a (parent x)) e
        (rw (exchange-second a (parent i) i, exchange-first a (parent i) i (omega arith)) s)
  | no e ↦ rw (exchange-other a (parent i) i j d e) (elim (ℕ_discrete i (parent j)) [
    | yes f ↦
        subst (λ x. a j ≤ℤ exchange (parent i) i a x) f
          (rw (exchange-second a (parent i) i) (b.around j p l (sym f) z))
    | no f ↦ elim (ℕ_discrete (parent i) (parent j)) [
      | yes g ↦
          subst (λ x. a j ≤ℤ exchange (parent i) i a x) g
            (rw (exchange-first a (parent i) i (omega arith)) (
              trans-≤ℤ (a j) (a (parent i)) (a i)
                (subst (λ x. a j ≤ℤ a x) (sym g) (b.order j p l e)) s))
      | no g ↦ rw (exchange-other a (parent i) i (parent j) g f) (b.order j p l e)
    ]
  ])
]

exchange-around :
    (a : ℕ → ℤ) (n i j : ℕ)
    → 0 < i
    → i < n
    → HeapBut a n i
    → 0 < j
    → j < n
    → parent j ≡ parent i
    → 0 < parent i
    → exchange (parent i) i a j ≤ℤ exchange (parent i) i a (parent (parent i))
exchange-around a n i j z k b p l e q =
    let up : a (parent i) ≤ℤ a (parent (parent i)) =
      b.order (parent i) q (omega arith) (omega arith) in
    rw (exchange-other a (parent i) i (parent (parent i)) (omega arith) (omega arith))
      (elim (ℕ_discrete i j) [
        | yes f ↦
            subst (λ x. exchange (parent i) i a x ≤ℤ a (parent (parent i))) f
              (rw (exchange-second a (parent i) i) up)
        | no f ↦ rw (exchange-other a (parent i) i j (omega arith) f) (
            trans-≤ℤ (a j) (a (parent i)) (a (parent (parent i)))
              (subst (λ x. a j ≤ℤ a x) e (b.order j p l f)) up)
      ])

exchange-HeapBut :
    (a : ℕ → ℤ) (n i : ℕ)
    → 0 < i
    → i < n
    → a (parent i) ≤ℤ a i
    → HeapBut a n i
    → HeapBut (exchange (parent i) i a) n (parent i)
exchange-HeapBut a n i z k s b = record {
  order = λ j p l d. exchange-order a n i j z s b p l d;
  around = λ j p l e q. exchange-around a n i j z k b p l e q;
}

heap_up-stops :
    (m : ℕ) (a : ℕ → ℤ) (i : ℕ)
    → (ltb 0 i && ltb_ℤ (a (parent i)) (a i)) ≡ false
    → queue_heap_up m a i ≡ a
unfolding queue_heap_up
heap_up-stops zero a i e = refl
heap_up-stops (suc m) a i e = rw e

heap_up-goes_on :
    (m : ℕ) (a : ℕ → ℤ) (i : ℕ)
    → (ltb 0 i && ltb_ℤ (a (parent i)) (a i)) ≡ true
    → queue_heap_up (suc m) a i ≡ queue_heap_up m (exchange (parent i) i a) (parent i)
unfolding queue_heap_up
heap_up-goes_on m a i e = rw e

goes_on :
    (a : ℕ → ℤ) (i : ℕ)
    → (ltb 0 i && ltb_ℤ (a (parent i)) (a i)) ≡ true
    → (0 < i) × (a (parent i) ≤ℤ a i)
goes_on a i e = (ground arith, ground arith)

stops :
    (a : ℕ → ℤ) (i : ℕ)
    → (ltb 0 i && ltb_ℤ (a (parent i)) (a i)) ≡ false
    → 0 < i
    → a i ≤ℤ a (parent i)
stops a i e z = ground arith

-- With as many rounds as the index, queue_heap_up makes a heap of one in which only the node `i` may
-- be greater than its parent, by exchanges of its nodes.
pub queue_heap_up-IsHeap :
    (m : ℕ) (a c : ℕ → ℤ) (n i : ℕ)
    → i ≤ m
    → i < n
    → HeapBut a n i
    → Exchanged n c a
    → IsHeap (queue_heap_up m a i) n × Exchanged n c (queue_heap_up m a i)
queue_heap_up-IsHeap zero a c n i l k b x =
    rw (heap_up-stops zero a i (ground arith))
      (HeapBut-IsHeap a n i (λ z. absurd (omega arith)) b, x)
queue_heap_up-IsHeap (suc m) a c n i l k b x =
    elim (Bool-cases (ltb 0 i && ltb_ℤ (a (parent i)) (a i))) [
      | inr e ↦ rw (heap_up-stops (suc m) a i e) (HeapBut-IsHeap a n i (stops a i e) b, x)
      | inl e ↦
          let (z, s) = goes_on a i e in
          rw (heap_up-goes_on m a i e) (
            queue_heap_up-IsHeap m (exchange (parent i) i a) c n (parent i) (omega arith)
              (omega arith) (exchange-HeapBut a n i z k s b) (swap (parent i) i (omega arith) k x))
    ]
