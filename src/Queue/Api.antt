-- ===== src/Queue/Api.antt =====
-- queue_push and queue_pop of OSM/Assignments/Third_Assignment/queue/queue.c.
use aar.Base.{
  ℕ, zero, suc, ◌+◌, ◌*◌, ◌%◌, ◌^◌, ◌<◌, ◌≤◌, ◌≡◌, refl, sym, subst, ap, Bool, true, false, arith,
  update, update_ne, leb, Bool-cases, inl, inr, Option, none, some,
}
use aar.Base.Int.{ℤ}
use aar.Queue.{
  Queue, parent, exchange, queue_overflow, growth_factor, queue_heap_up, queue_heap_down,
  queue_init, queue_grow, push_node, queue_push, queue_pop,
}
use aar.Queue.Heap.{◌≤ℤ◌, IsHeap, Exchanged, same, exchange-other, root-max}
use aar.Queue.Up.{HeapBut, queue_heap_up-IsHeap}
use aar.Queue.Down.{HeapFrom, queue_heap_down-IsHeap}

-- Between calls: the nodes form a heap that fits into the array, and the mutex is open.
pub record WellFormed (q : Queue) : Type 0 where
  pub next : q.next ≡ q.count
  pub fits : q.count ≤ q.size
  pub room : 0 < q.size
  pub heap : IsHeap q.root q.count
  pub unlocked : q.locked ≡ false

-- The two ways in which queue_push ends.
pub data Pushes (realloc : ℕ → Bool) (pri : ℤ) (q : Queue) : ℕ × Queue → Type 0 where
  pushed :
      {r : ℕ × Queue}
      → r.0 ≡ 0
      → WellFormed r.1
      → r.1.count ≡ suc q.count
      → Exchanged (suc q.count) (update q.root q.count pri) r.1.root
      → Pushes realloc pri q r
  refused :
      {r : ℕ × Queue}
      → q.size ≤ q.count
      → realloc (q.size * growth_factor) ≡ false
      → r ≡ (queue_overflow, record q { locked = true })
      → Pushes realloc pri q r

appended-HeapBut : (a : ℕ → ℤ) (n : ℕ) (v : ℤ) → IsHeap a n → HeapBut (update a n v) (suc n) n
appended-HeapBut a n v h = record {
  order = λ j p l d.
      rw (update_ne a n j v d, update_ne a n (parent j) v (λ e. absurd (omega arith)))
        (h j p (omega arith));
  around = λ j p l e z. absurd (omega arith);
}

push_node-WellFormed :
    (pri : ℤ) (q : Queue)
    → q.next ≡ q.count
    → q.count < q.size
    → IsHeap q.root q.count
    → WellFormed (push_node pri q)
      × Exchanged (suc q.count) (update q.root q.count pri) (push_node pri q).root
unfolding push_node
push_node-WellFormed pri q e l h =
    let (heap, moved) =
      queue_heap_up-IsHeap q.count (update q.root q.count pri) (update q.root q.count pri)
        (suc q.count) q.count (omega arith) (omega arith) (appended-HeapBut q.root q.count pri h)
        same in
    (
      record {
        next = ap (λ x. x + 1) e;
        fits = omega arith;
        room = omega arith;
        heap =
            rw e
              (subst (IsHeap (queue_heap_up q.count (update q.root q.count pri) q.count)) one heap);
        unlocked = refl;
      },
      rw e moved,
    )
  where
    one : suc q.count ≡ q.count + 1
    one = omega arith

push-room :
    (realloc : ℕ → Bool) (pri : ℤ) (q : Queue)
    → leb q.size q.count ≡ false
    → queue_push realloc pri q ≡ (0, push_node pri (record q { locked = true }))
unfolding queue_push
push-room realloc pri q h = rw h

abbrev grown : Queue → Queue
grown q = record q { locked = true; size = q.size * growth_factor; next = q.count }

push-grown :
    (realloc : ℕ → Bool) (pri : ℤ) (q : Queue)
    → leb q.size q.count ≡ true
    → q.size < 2 ^ 63
    → realloc (q.size * growth_factor) ≡ true
    → queue_push realloc pri q ≡ (0, push_node pri (grown q))
unfolding queue_push queue_grow
push-grown realloc pri q h b r =
    let e : (q.size * growth_factor) % 2 ^ 64 ≡ q.size * growth_factor = omega arith in rw (h, e, r)

push-refused :
    (realloc : ℕ → Bool) (pri : ℤ) (q : Queue)
    → leb q.size q.count ≡ true
    → q.size < 2 ^ 63
    → realloc (q.size * growth_factor) ≡ false
    → queue_push realloc pri q ≡ (queue_overflow, record q { locked = true })
unfolding queue_push queue_grow
push-refused realloc pri q h b r =
    let e : (q.size * growth_factor) % 2 ^ 64 ≡ q.size * growth_factor = omega arith in rw (h, e, r)

count_up : (pri : ℤ) (p : Queue) → (push_node pri p).count ≡ suc p.count
unfolding push_node
count_up pri p = omega arith

-- On a well-formed queue whose array is shorter than 2^63 nodes, queue_push either adds the priority
-- and leaves a well-formed queue, whose nodes are the old ones and the new one in another order, or
-- gives QUEUE_OVERFLOW, and then the array was full and could not grow, the nodes are as before, and
-- the mutex stays locked.
pub queue_push-Pushes :
    (realloc : ℕ → Bool) (pri : ℤ) (q : Queue)
    → q.size < 2 ^ 63
    → WellFormed q
    → Pushes realloc pri q (queue_push realloc pri q)
queue_push-Pushes realloc pri q b w = elim (Bool-cases (leb q.size q.count)) [
  | inr e ↦
      let (v, x) =
        push_node-WellFormed pri (record q { locked = true }) w.next (ground arith) w.heap in
      rw (push-room realloc pri q e) (pushed refl v (count_up pri (record q { locked = true })) x)
  | inl e ↦ elim (Bool-cases (realloc (q.size * growth_factor))) [
    | inr f ↦ refused (ground arith) f (push-refused realloc pri q e b f)
    | inl f ↦
        let (v, x) =
          push_node-WellFormed pri (grown q) refl (omega (arith, w.fits, w.room)) w.heap in
        rw (push-grown realloc pri q e b f) (pushed refl v (count_up pri (grown q)) x)
  ]
]

-- The two ways in which queue_pop goes on.
pub data Pops (q : Queue) : Option ℤ × Queue → Type 0 where
  waits : {r : Option ℤ × Queue} → q.count ≡ 0 → r ≡ (none, q) → Pops q r
  popped :
      {r : Option ℤ × Queue}
      → r.0 ≡ some (q.root 0)
      → ((j : ℕ) → j < q.count → q.root j ≤ℤ q.root 0)
      → suc r.1.count ≡ q.count
      → WellFormed r.1
      → Exchanged r.1.count (exchange 0 r.1.count q.root) r.1.root
      → Pops q r

replaced-HeapFrom : (a : ℕ → ℤ) (n : ℕ) → IsHeap a (suc n) → HeapFrom (exchange 0 n a) n 0
replaced-HeapFrom a n h = record {
  order = λ j p l d.
      rw
        (
          exchange-other a 0 n j (λ e. absurd (omega arith)) (λ e. absurd (omega arith)),
          exchange-other a 0 n (parent j) d (λ e. absurd (omega arith)),
        )
        (h j p (omega arith));
  around = λ j p l e z. absurd (omega arith);
}

pop-empty : (q : Queue) → q.count ≡ 0 → queue_pop q ≡ (none, q)
unfolding queue_pop
pop-empty q e = rw e

abbrev shrunk : ℕ → Queue → Queue
shrunk n q = record q {
  count = n;
  next = n;
  root = queue_heap_down n (exchange 0 n q.root) n 0;
  locked = false;
}

pop-shrunk :
    (n : ℕ) (q : Queue)
    → q.count ≡ suc n
    → q.next ≡ suc n
    → queue_pop q ≡ (some (q.root 0), shrunk n q)
unfolding queue_pop
pop-shrunk n q e f = ground arith

pop-cases : (n : ℕ) (q : Queue) → q.count ≡ n → WellFormed q → Pops q (queue_pop q)
pop-cases zero q e w = waits e (pop-empty q e)
pop-cases (suc n) q e w =
    let full : IsHeap q.root (suc n) = subst (IsHeap q.root) e w.heap in
    let (heap, moved) =
      queue_heap_down-IsHeap n (exchange 0 n q.root) (exchange 0 n q.root) n 0 (omega arith)
        (replaced-HeapFrom q.root n full) same in
    rw (pop-shrunk n q e (rw (w.next, e))) (
      popped refl (λ j l. root-max q.root q.count j w.heap l) (sym e)
        (record {
          next = refl;
          fits = omega (arith, w.fits);
          room = w.room;
          heap = heap;
          unlocked = refl;
        })
        moved)

-- On a well-formed queue queue_pop waits if the queue is empty; otherwise it gives a priority that
-- none in the queue exceeds, and leaves a well-formed queue of the others in another order.
pub queue_pop-Pops : (q : Queue) → WellFormed q → Pops q (queue_pop q)
queue_pop-Pops q w = pop-cases q.count q refl w

-- After queue_init the queue is well formed and empty.
pub queue_init-WellFormed : (q : Queue) → WellFormed (queue_init q)
unfolding queue_init
queue_init-WellFormed q = record {
  next = refl;
  fits = omega arith;
  room = omega arith;
  heap = λ j p l. absurd (omega arith);
  unlocked = refl;
}
