-- ===== src/Kernel/Scheduler/Keeps.antt =====
-- The fields of a thread that belong to its process, through the operations of
-- kudos/kernel/scheduler.c.
use aar.Base.{
  ℕ, ◌≡◌, refl, ◌∙◌, not, arith, ltb, ◌==◌, Partly, Partly-bind, Partly-any, assert, in_range,
}
use aar.Base.Int.{ℤ, pos, negsuc}
use aar.Kernel.{Kernel, max_threads, idle_tid}
use aar.Kernel.Scheduler.{link_last, add_to_ready_list}

-- No thread's page table and no thread's process has changed.
abbrev pub Keeps : Kernel → Kernel → Type 0
Keeps k k' =
    (x : ℕ)
    → ((k'.threads x).pagetable ≡ (k.threads x).pagetable)
      × ((k'.threads x).process_id ≡ (k.threads x).process_id)

pub Keeps-trans : (k k' k'' : Kernel) → Keeps k k' → Keeps k' k'' → Keeps k k''
Keeps-trans k k' k'' a b x = ((b x).0 ∙ (a x).0, (b x).1 ∙ (a x).1)

link_last-Keeps : (t : ℕ) (k : Kernel) (z : ℤ) → k.tail ≡ z → Partly (link_last t k) (Keeps k)
unfolding link_last
link_last-Keeps t k (negsuc n) e = rw (e, link_last) (λ x. (ground arith, ground arith))
link_last-Keeps t k (pos l) e =
    rw (e, link_last)
      (Partly-bind (in_range (ltb l max_threads)) _ (λ _. Unit {0}) (Keeps k)
        (Partly-any (in_range (ltb l max_threads)) (λ _. Unit {0}) (λ _. tt))
        λ u _ x. (ground arith, ground arith))

pub add_to_ready_list-Keeps : (z : ℤ) (k : Kernel) → Partly (add_to_ready_list z k) (Keeps k)
unfolding add_to_ready_list
add_to_ready_list-Keeps (negsuc n) k = tt
add_to_ready_list-Keeps (pos t) k =
    Partly-bind (assert (not (t == idle_tid))) _ (λ _. Unit {0}) (Keeps k)
      (Partly-any (assert (not (t == idle_tid))) (λ _. Unit {0}) (λ _. tt))
      λ u _.
        Partly-bind (assert (ltb t max_threads)) _ (λ _. Unit {0}) (Keeps k)
          (Partly-any (assert (ltb t max_threads)) (λ _. Unit {0}) (λ _. tt))
          λ v _. link_last-Keeps t k k.tail refl
