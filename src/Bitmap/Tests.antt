-- ===== src/Bitmap/Tests.antt =====
-- A bitmap whose first word is full, on which the theorems on kudos/lib/bitmap.c are tried.
use aar.Base.{ℕ, ◌≡◌, arith, ◌==◌, if◌then◌else◌, done, Returns}
use aar.Base.Int.{pos}
use aar.Bitmap.{bitmap_get, bitmap_set, bitmap_findnset}
use aar.Bitmap.Search.{Finds, bitmap_findnset-Finds}
use aar.Bitmap.Update.{bitmap_get-bitmap_set}

abbrev some_bitmap : ℕ → ℕ
some_bitmap i = if i == 0 then 0xffffffff else 5

bitmap_get-bitmap_set_example :
    Returns (bitmap_set some_bitmap (pos 33) (pos 1)) (λ b'. bitmap_get b' (pos 33) ≡ done 1)
bitmap_get-bitmap_set_example = bitmap_get-bitmap_set some_bitmap 33 33 1 (omega arith)

bitmap_findnset-Finds_example :
    Returns (bitmap_findnset some_bitmap (pos 40)) (Finds 40 some_bitmap)
bitmap_findnset-Finds_example = bitmap_findnset-Finds 40 some_bitmap (omega arith)
