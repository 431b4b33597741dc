-- ===== src/Stalloc/Tests.antt =====
-- The theorem on kudos/kernel/stalloc.c, tried on an address.
use aar.Base.{◌+◌, ◌%◌, ◌≤◌, ◌≡◌, arith, Returns}
use aar.Stalloc.Bounds.{twice, stalloc-stalloc}

stalloc-stalloc_example : Returns (twice 6 9 4096) (λ t. (t.0 + 6 ≤ t.1) × (t.1 % 4 ≡ 0))
stalloc-stalloc_example = stalloc-stalloc 6 9 4096 (omega arith) (omega arith)
