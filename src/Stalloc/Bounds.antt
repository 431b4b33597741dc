-- ===== src/Stalloc/Bounds.antt =====
-- Where stalloc of kudos/kernel/stalloc.c places what it allocates.
use aar.Base.{
  ℕ, ◌+◌, ◌%◌, ◌^◌, ◌<◌, ◌≤◌, ◌≡◌, refl, arith, Outcome, done, Returns, Returns-bind, ◌>>=◌,
}
use aar.Base.Int.{pos}
use aar.Stalloc.{word_boundary, stalloc}

-- What an allocation of `n` bytes gives.
abbrev pub Places : ℕ → ℕ → ℕ × ℕ → Type 0
Places n a r = (r.0 ≡ a) × (a + n ≤ r.1) × (r.1 < a + n + 4) × (r.1 % 4 ≡ 0)

stalloc-value :
    (n a : ℕ)
    → 0 < a
    → a < 0xffffffff
    → stalloc (pos n) a ≡ done (a, word_boundary ((a + n) % 2 ^ 32))
unfolding stalloc
stalloc-value n a p h = ground arith

-- Where there is memory left in 32 bits, and after stalloc_init and before stalloc_disable, stalloc
-- returns the start of the free area, and the free area begins behind the allocated bytes at the
-- next word boundary.
pub stalloc-Places :
    (n a : ℕ) → 0 < a → a + n + 4 < 2 ^ 32 → Returns (stalloc (pos n) a) (Places n a)
stalloc-Places n a p h =
    rw (stalloc-value n a p (omega arith)) (refl, ground arith, ground arith, ground arith)

-- Two allocations in a row: the addresses that they give.
abbrev pub twice : ℕ → ℕ → ℕ → Outcome (ℕ × ℕ)
twice n k a = do
  (first, a₁) ← stalloc (pos n) a
  (second, a₂) ← stalloc (pos k) a₁
  done (first, second)

-- Two allocations in a row, with memory left for both, do not overlap, and the second begins at a
-- word boundary.
pub stalloc-stalloc :
    (n k a : ℕ)
    → 0 < a
    → a + n + k + 8 < 2 ^ 32
    → Returns (twice n k a) (λ t. (t.0 + n ≤ t.1) × (t.1 % 4 ≡ 0))
stalloc-stalloc n k a p h =
    Returns-bind (stalloc (pos n) a) _ (Places n a) (λ t. (t.0 + n ≤ t.1) × (t.1 % 4 ≡ 0))
      (stalloc-Places n a p (omega arith))
      λ r x.
        Returns-bind (stalloc (pos k) r.1) _ (Places k r.1) (λ t. (t.0 + n ≤ t.1) × (t.1 % 4 ≡ 0))
          (stalloc-Places k r.1 (omega (arith, x.1)) (omega (arith, x.2)))
          λ s y. (omega (arith, x.0, x.1, y.0), omega (arith, y.0, x.3))
