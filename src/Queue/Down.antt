-- ===== src/Queue/Down.antt =====
-- queue_heap_down of OSM/Assignments/Third_Assignment/queue/queue.c.
use aar.Base.{
  ℕ, zero, suc, ◌+◌, ◌*◌, ◌<◌, ◌≤◌, ◌≡◌, refl, ◌≢◌, sym, subst, ap, ◌∙◌, true, false, ◌&&◌, arith,
  ltb, ltb→lt, lt→ltb, ℕ_discrete, Bool-cases, inl, inr,
}
use aar.Base.Int.{ℤ, ltb_ℤ}
use aar.Queue.{parent, left, right, exchange, max_child, sink, queue_heap_down}
use aar.Queue.Heap.{
  ◌≤ℤ◌, trans-≤ℤ, ≤ℤ-refl, ≤ℤ_lt, ≤ℤ_not_lt, IsHeap, Exchanged, swap, exchange-first,
  exchange-second, exchange-other,
}

-- A heap but for the children of the node `i`, which are no greater than its parent.
pub record HeapFrom (a : ℕ → ℤ) (n i : ℕ) : Type 0 where
  pub order : (j : ℕ) → 0 < j → j < n → i ≢ parent j → a j ≤ℤ a (parent j)
  pub around : (j : ℕ) → 0 < j → j < n → parent j ≡ i → 0 < i → a j ≤ℤ a (parent i)

HeapFrom-IsHeap : (a : ℕ → ℤ) (n i : ℕ) → n ≤ left i → HeapFrom a n i → IsHeap a n
HeapFrom-IsHeap a n i h b j p l = b.order j p l λ e. childless i j (left i) n refl h p l (sym e)
  where
    childless : (i j k n : ℕ) → left i ≡ k → n ≤ k → 0 < j → j < n → parent j ≡ i → ⊥
    childless i j k n e h p l f = ground arith

-- `c` is the greatest child of `i`.
record IsGreatest (a : ℕ → ℤ) (n i c : ℕ) : Type 0 where
  positive : 0 < c
  bound : c < n
  child : parent c ≡ i
  greatest : (j : ℕ) → 0 < j → j < n → parent j ≡ i → a j ≤ℤ a c

max_child-right :
    (a : ℕ → ℤ) (n i : ℕ)
    → 0 < i
    → i * 2 + 1 < n
    → a (i * 2) ≤ℤ a (i * 2 + 1)
    → IsGreatest a n i (i * 2 + 1)
max_child-right a n i z l s = record {
  positive = omega arith;
  bound = l;
  child = omega arith;
  greatest = λ j p k e. elim (ℕ_discrete j (i * 2)) [
    | yes d ↦ rw d s
    | no d ↦ let here : j ≡ i * 2 + 1 = omega arith in rw here (≤ℤ-refl (a (i * 2 + 1)))
  ];
}

max_child-left :
    (a : ℕ → ℤ) (n i : ℕ)
    → 0 < i
    → i * 2 < n
    → (i * 2 + 1 < n → a (i * 2 + 1) ≤ℤ a (i * 2))
    → IsGreatest a n i (i * 2)
max_child-left a n i z l s = record {
  positive = omega arith;
  bound = l;
  child = omega arith;
  greatest = λ j p k e. elim (ℕ_discrete j (i * 2)) [
    | yes d ↦ rw d (≤ℤ-refl (a (i * 2)))
    | no d ↦ let here : j ≡ i * 2 + 1 = omega arith in rw here (s (subst (λ x. x < n) here k))
  ];
}

-- The node 1 is the only child of the root.
root_child : (a : ℕ → ℤ) (n : ℕ) → 1 < n → IsGreatest a n 0 1
root_child a n l = record {
  positive = omega arith;
  bound = l;
  child = refl;
  greatest = λ j p k e. let here : j ≡ 1 = omega arith in rw here (≤ℤ-refl (a 1));
}

max_child-IsGreatest :
    (a : ℕ → ℤ) (n i : ℕ) → left i < n → HeapFrom a n i → IsGreatest a n i (max_child a n i)
max_child-IsGreatest a n zero l b =
    let first : ltb 2 n ≡ true → a 2 ≤ℤ a 1 =
      λ t. b.order 2 (omega arith) (ltb→lt 2 n t) (λ e. omega arith) in
    let one : max_child a n 0 ≡ 1 = one_only first in rw one (root_child a n l)
  where
    one_only : (ltb 2 n ≡ true → a 2 ≤ℤ a 1) → max_child a n 0 ≡ 1
    one_only f = elim (Bool-cases (ltb 2 n)) [ inr e ↦ rw e | inl e ↦ let s = f e in ground arith ]
max_child-IsGreatest a n (suc i) l b =
    elim (Bool-cases (ltb (right (suc i)) n && ltb_ℤ (a (left (suc i))) (a (right (suc i))))) [
      | inl e ↦
          let r : suc i * 2 + 1 ≡ max_child a n (suc i) = ground arith in
          subst (IsGreatest a n (suc i)) r
            (max_child-right a n (suc i) (omega arith) (ground arith) (ground arith))
      | inr e ↦
          let r : suc i * 2 ≡ max_child a n (suc i) = ground arith in
          subst (IsGreatest a n (suc i)) r
            (max_child-left a n (suc i) (omega arith) (ground arith) (λ k. ground arith))
    ]

-- One round: the node `i` is no less than its greatest child `c` afterwards.
module _ (a : ℕ → ℤ) (n i c : ℕ) (g : IsGreatest a n i c) (b : HeapFrom a n i) where
  exchanged-order :
      a i ≤ℤ a c
      → (j : ℕ) → 0 < j
      → j < n
      → c ≢ parent j
      → exchange c i a j ≤ℤ exchange c i a (parent j)
  exchanged-order s j p l d = elim (ℕ_discrete i (parent j)) [
    | yes e ↦
        subst (λ x. exchange c i a j ≤ℤ exchange c i a x) e
          (rw (exchange-second a c i) (elim (ℕ_discrete c j) [
            | yes f ↦ subst (λ x. exchange c i a x ≤ℤ a c) f (rw (exchange-first a c i apart) s)
            | no f ↦
                rw (exchange-other a c i j f (λ z. absurd (omega (arith, z, e))))
                  (g.greatest j p l (sym e))
          ]))
    | no e ↦ rw (exchange-other a c i (parent j) d e) (elim (ℕ_discrete i j) [
      | yes f ↦
          subst (λ x. exchange c i a x ≤ℤ a (parent x)) f
            (rw (exchange-second a c i) (
              let z : 0 < i = subst (λ x. 0 < x) (sym f) p in
              b.around c g.positive g.bound g.child z))
      | no f ↦
          let other : c ≢ j = λ z. e (sym g.child ∙ ap parent z) in
          rw (exchange-other a c i j other f) (b.order j p l e)
    ])
  ]
    where
      apart : c ≢ i
      apart z = absurd (omega (arith, g.child, g.positive, z))

  exchanged-around :
      a i ≤ℤ a c → (j : ℕ) → 0 < j → j < n → parent j ≡ c → exchange c i a j ≤ℤ exchange c i a i
  exchanged-around s j p l e =
      let from_i : i ≢ j = λ z. absurd (omega (arith, g.child, g.positive, e, z)) in
      let from_c : c ≢ j = λ z. absurd (omega (arith, p, e, z)) in
      let from_parent : i ≢ parent j = λ z. absurd (omega (arith, g.child, g.positive, e, z)) in
      rw (exchange-other a c i j from_c from_i, exchange-second a c i)
        (subst (λ x. a j ≤ℤ a x) e (b.order j p l from_parent))

  kept-order : a c ≤ℤ a i → (j : ℕ) → 0 < j → j < n → c ≢ parent j → a j ≤ℤ a (parent j)
  kept-order s j p l d = elim (ℕ_discrete i (parent j)) [
    | no e ↦ b.order j p l e
    | yes e ↦ subst (λ x. a j ≤ℤ a x) e (trans-≤ℤ (a j) (a c) (a i) (g.greatest j p l (sym e)) s)
  ]

  sink-HeapFrom : HeapFrom (sink a i c) n c
  sink-HeapFrom = elim (Bool-cases (ltb_ℤ (a i) (a c))) [
    | inl e ↦ rw e (record {
      order = exchanged-order (≤ℤ_lt (a i) (a c) e);
      around = λ j p l f z.
          subst (λ x. exchange c i a j ≤ℤ exchange c i a x) (sym g.child)
            (exchanged-around (≤ℤ_lt (a i) (a c) e) j p l f);
    })
    | inr e ↦ rw e (record {
      order = kept-order (≤ℤ_not_lt (a i) (a c) e);
      around = λ j p l f z.
          let from_parent : i ≢ parent j = λ y. absurd (omega (arith, g.child, g.positive, f, y)) in
          subst (λ x. a j ≤ℤ a x) (sym g.child)
            (trans-≤ℤ (a j) (a c) (a i) (subst (λ x. a j ≤ℤ a x) f (b.order j p l from_parent))
              (≤ℤ_not_lt (a i) (a c) e));
    })
  ]

heap_down-stops : (m : ℕ) (a : ℕ → ℤ) (n i : ℕ) → n ≤ left i → queue_heap_down m a n i ≡ a
unfolding queue_heap_down
heap_down-stops zero a n i h = refl
heap_down-stops (suc m) a n i h = let e : ltb (left i) n ≡ false = ground arith in rw e

heap_down-goes_on :
    (m : ℕ) (a : ℕ → ℤ) (n i : ℕ)
    → left i < n
    → queue_heap_down (suc m) a n i
      ≡ queue_heap_down m (sink a i (max_child a n i)) n (max_child a n i)
unfolding queue_heap_down
heap_down-goes_on m a n i h = rw (lt→ltb (left i) n h)

sink-Exchanged :
    (a b : ℕ → ℤ) (n i c : ℕ) → i < n → c < n → Exchanged n b a → Exchanged n b (sink a i c)
sink-Exchanged a b n i c l k x = elim (Bool-cases (ltb_ℤ (a i) (a c))) [
  | inl e ↦ rw e (swap c i k l x)
  | inr e ↦ rw e x
]

-- With as many rounds as nodes behind `i`, queue_heap_down makes a heap of one in which only the
-- children of `i` may be greater than `i`, by exchanges of its nodes.
pub queue_heap_down-IsHeap :
    (m : ℕ) (a b : ℕ → ℤ) (n i : ℕ)
    → n ≤ m + i
    → HeapFrom a n i
    → Exchanged n b a
    → IsHeap (queue_heap_down m a n i) n × Exchanged n b (queue_heap_down m a n i)
queue_heap_down-IsHeap zero a b n i l h x =
    let e : n ≤ left i = ground arith in
    rw (heap_down-stops zero a n i e) (HeapFrom-IsHeap a n i e h, x)
queue_heap_down-IsHeap (suc m) a b n i l h x = elim (Bool-cases (ltb (left i) n)) [
  | inr e ↦
      let e' : n ≤ left i = ground arith in
      rw (heap_down-stops (suc m) a n i e') (HeapFrom-IsHeap a n i e' h, x)
  | inl e ↦
      let k = ltb→lt (left i) n e in
      let g = max_child-IsGreatest a n i k h in
      let c = max_child a n i in
      let i_c : i < c = omega (arith, g.child, g.positive) in
      rw (heap_down-goes_on m a n i k) (
        queue_heap_down-IsHeap m (sink a i c) b n c (omega arith) (sink-HeapFrom a n i c g h)
          (sink-Exchanged a b n i c (omega (arith, g.bound, i_c)) g.bound x))
]
