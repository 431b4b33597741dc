-- ===== src/Queue/Heap.antt =====
-- The order that OSM/Assignments/Third_Assignment/queue/queue.c keeps its array in.
use aar.Base.{ℕ, zero, suc, ◌+◌, ◌<◌, ◌≤◌, ◌≡◌, ◌≢◌, true, false, arith, ℕ_discrete}
use aar.Base.Int.{ℤ, pos_part, neg_part, ltb_ℤ}
use aar.Queue.{parent, exchange}

-- a ≤ b
infix 50 ◌≤ℤ◌
abbrev pub ◌≤ℤ◌ : ℤ → ℤ → Type 0
a ≤ℤ b = pos_part a + neg_part b ≤ pos_part b + neg_part a

pub trans-≤ℤ : (a b c : ℤ) → a ≤ℤ b → b ≤ℤ c → a ≤ℤ c
trans-≤ℤ a b c h k = omega arith

pub ≤ℤ-refl : (a : ℤ) → a ≤ℤ a
≤ℤ-refl a = omega arith

pub ≤ℤ_lt : (a b : ℤ) → ltb_ℤ a b ≡ true → a ≤ℤ b
≤ℤ_lt a b h = ground arith

pub ≤ℤ_not_lt : (a b : ℤ) → ltb_ℤ a b ≡ false → b ≤ℤ a
≤ℤ_not_lt a b h = ground arith

-- No node of the first `n` is greater than its parent.
abbrev pub IsHeap : (ℕ → ℤ) → ℕ → Type 0
IsHeap a n = (j : ℕ) → 0 < j → j < n → a j ≤ℤ a (parent j)

-- `b` is `a` after exchanges within the first `n` nodes.
pub data Exchanged (n : ℕ) (a : ℕ → ℤ) : (ℕ → ℤ) → Type 0 where
  same : Exchanged n a a
  swap : {b : ℕ → ℤ} (i j : ℕ) → i < n → j < n → Exchanged n a b → Exchanged n a (exchange i j b)

pub exchange-first : (a : ℕ → ℤ) (i j : ℕ) → i ≢ j → exchange i j a i ≡ a j
exchange-first a i j d = ground arith

pub exchange-second : (a : ℕ → ℤ) (i j : ℕ) → exchange i j a j ≡ a i
exchange-second a i j = ground arith

pub exchange-other : (a : ℕ → ℤ) (i j x : ℕ) → i ≢ x → j ≢ x → exchange i j a x ≡ a x
exchange-other a i j x d e = ground arith

below_root : (m : ℕ) (a : ℕ → ℤ) (n j : ℕ) → IsHeap a n → j < n → j ≤ m → a j ≤ℤ a 0
below_root zero a n j h l b = let e : j ≡ 0 = omega arith in rw e (≤ℤ-refl (a 0))
below_root (suc m) a n j h l b = elim (ℕ_discrete j 0) [
  | yes e ↦ rw e (≤ℤ-refl (a 0))
  | no d ↦
      trans-≤ℤ (a j) (a (parent j)) (a 0) (h j (omega arith) l)
        (below_root m a n (parent j) h (omega arith) (omega arith))
]

-- The root is the greatest.
pub root-max : (a : ℕ → ℤ) (n j : ℕ) → IsHeap a n → j < n → a j ≤ℤ a 0
root-max a n j h l = below_root j a n j h l (omega arith)
