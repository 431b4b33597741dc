-- ===== src/Queue.antt =====
-- OSM/Assignments/Third_Assignment/queue/queue.c: a priority queue in a binary heap, with a mutex.
-- The array is a function, pointers into it are indexes, and whether realloc succeeds is a parameter.
pub mod Heap
pub mod Up
pub mod Down
pub mod Api
mod Tests
use aar.Base.{
  ℕ, zero, suc, ◌+◌, ◌-◌, ◌*◌, ◌/◌, ◌%◌, ◌^◌, Bool, true, false, not, ◌&&◌, Option, none, some,
  update, ltb, leb, ◌==◌, if◌then◌else◌,
}
use aar.Base.Int.{ℤ, pos, negsuc, ltb_ℤ}

abbrev pub init_size : ℕ
init_size = 8

abbrev pub growth_factor : ℕ
growth_factor = 2

abbrev pub queue_overflow : ℕ
queue_overflow = 2

-- struct queue; `root` holds the priorities, `next` is the index of the node it points at, and
-- `locked` is the mutex, which is a global of the file.
pub record Queue : Type 0 where
  pub root : ℕ → ℤ
  pub next : ℕ
  pub count : ℕ
  pub size : ℕ
  pub locked : Bool

abbrev pub parent : ℕ → ℕ
parent i = i / 2

abbrev pub left : ℕ → ℕ
left i = if i == 0 then 1 else i * 2

abbrev pub right : ℕ → ℕ
right i = if i == 0 then 2 else i * 2 + 1

-- The nodes `i` and `j` of an array.
abbrev pub exchange : ℕ → ℕ → (ℕ → ℤ) → ℕ → ℤ
exchange i j a = update (update a i (a j)) j (a i)

-- `n` bounds the rounds: the index is halved in each.
pub queue_heap_up : ℕ → (ℕ → ℤ) → ℕ → ℕ → ℤ
queue_heap_up zero a i = a
queue_heap_up (suc n) a i =
    let more = queue_heap_up n (exchange (parent i) i a) (parent i) in
    if ltb 0 i && ltb_ℤ (a (parent i)) (a i) then more else a

-- The child to go on with.
abbrev pub max_child : (ℕ → ℤ) → ℕ → ℕ → ℕ
max_child a count i =
    if ltb (right i) count && ltb_ℤ (a (left i)) (a (right i)) then right i else left i

abbrev pub sink : (ℕ → ℤ) → ℕ → ℕ → ℕ → ℤ
sink a i c = if ltb_ℤ (a i) (a c) then exchange c i a else a

-- `n` bounds the rounds: the index grows in each.
pub queue_heap_down : ℕ → (ℕ → ℤ) → ℕ → ℕ → ℕ → ℤ
queue_heap_down zero a count i = a
queue_heap_down (suc n) a count i =
    let c = max_child a count i in
    let more = queue_heap_down n (sink a i c) count c in if ltb (left i) count then more else a

-- The nodes that malloc gives are arbitrary.
unfoldable pub queue_init : Queue → Queue
queue_init q = record q { next = 0; count = 0; size = init_size; locked = false }

-- `none` is a realloc that fails.
pub queue_grow : (ℕ → Bool) → Queue → Option Queue
queue_grow realloc q =
    let new_size = (q.size * growth_factor) % 2 ^ 64 in
    if realloc new_size then some (record q { size = new_size; next = q.count }) else none

-- The rest of queue_push, once there is room.
pub push_node : ℤ → Queue → Queue
push_node pri q = record q {
  root = queue_heap_up q.count (update q.root q.next pri) q.count;
  next = q.next + 1;
  count = q.count + 1;
  locked = false;
}

-- The caller has found the mutex open, and has locked it.
pub queue_push : (ℕ → Bool) → ℤ → Queue → ℕ × Queue
queue_push realloc pri q =
    let q' = record q { locked = true } in
    if leb q'.size q'.count
    then elim (queue_grow realloc q') [
      | none ↦ (queue_overflow, q')
      | some g ↦ (0, push_node pri g)
    ]
    else (0, push_node pri q')

-- `none` is a caller that goes on waiting for the condition variable.
pub queue_pop : Queue → Option ℤ × Queue
queue_pop q = if q.count == 0 then (none, q) else (
  some (q.root 0),
  record q {
    count = q.count - 1;
    next = q.next - 1;
    root = queue_heap_down (q.count - 1) (exchange 0 (q.next - 1) q.root) (q.count - 1) 0;
    locked = false;
  },
)
