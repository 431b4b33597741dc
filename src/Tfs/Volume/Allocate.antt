-- ===== src/Tfs/Volume/Allocate.antt =====
-- The search for a free block in fs/tfs.c.
use aar.Base.{
  ℕ, ◌<◌, ◌≤◌, ◌≡◌, refl, ap, ◌∙◌, true, done, ltb, leb, ◌==◌, arith, if◌then◌else◌, Returns-done,
}
use aar.Base.Int.{ℤ, pos, negsuc}
use aar.Bitmap.{get_bit, bitmap_findnset}
use aar.Bitmap.Search.{Finds, found, full, bitmap_findnset-Finds}
use aar.Bitmap.Update.{get_bit-set_bit}
use aar.Tfs.{Tfs, word, put_words}
use aar.Tfs.Exec.{goes, ◌>>=◌, gets, modify, pure, lift}
use aar.Tfs.Volume.{find_block, set_bat}
use aar.Tfs.Volume.Words.{get_bit-put_words}

-- A bit of the allocation block in a buffer.
abbrev pub bat_bit : (ℕ → ℕ) → ℕ → ℕ
bat_bit bat q = get_bit (word bat) q

-- How the search ends: a free block is taken, and no other bit changes, or nothing changes.
pub data Takes (bat bat' : ℕ → ℕ) (total : ℕ) : ℤ → Type 0 where
  taken :
      {r : ℤ} (p : ℕ)
      → r ≡ pos p
      → p < total
      → bat_bit bat p ≡ 0
      → ((q : ℕ) → q < 4096 → bat_bit bat' q ≡ (if p == q then 1 else bat_bit bat q))
      → Takes bat bat' total r
  disk_full : {r : ℤ} → r ≡ negsuc 0 → Takes bat bat' total r

find_block-step :
    (s : Tfs) (r : ℤ) (w : ℕ → ℕ)
    → s.totalblocks ≤ 4096
    → bitmap_findnset (word s.buffer_bat) (pos s.totalblocks) ≡ done (r, w)
    → find_block s ≡ done (goes r, set_bat w s)
unfolding find_block ◌>>=◌ gets modify pure lift
find_block-step s r w h e =
    let inside : leb s.totalblocks 4096 ≡ true = ground arith in
    let small : ltb s.totalblocks 0x80000000 ≡ true = ground arith in rw (inside, small, e) refl

Finds-Takes :
    (s : Tfs) (r : ℤ) (w : ℕ → ℕ)
    → Finds s.totalblocks (word s.buffer_bat) (r, w)
    → Takes s.buffer_bat (put_words s.buffer_bat w) s.totalblocks r
Finds-Takes s r w (full before e) = disk_full (ap (λ (t : ℤ × (ℕ → ℕ)). t.0) e)
Finds-Takes s r w (found p l z before e) = taken p (ap (λ (t : ℤ × (ℕ → ℕ)). t.0) e) l z (λ q h.
    get_bit-put_words s.buffer_bat w q h
    ∙ ap (λ t. get_bit t q) (ap (λ (t : ℤ × (ℕ → ℕ)). t.1) e)
    ∙ get_bit-set_bit (word s.buffer_bat) p q)

pub find_block-Takes :
    (s : Tfs)
    → s.totalblocks ≤ 4096
    → (r : ℤ) × (bat : ℕ → ℕ) × (find_block s ≡ done (goes r, record s { buffer_bat = bat }))
      × Takes s.buffer_bat bat s.totalblocks r
find_block-Takes s h =
    let (f, e, x) =
      Returns-done (bitmap_findnset (word s.buffer_bat) (pos s.totalblocks))
        (Finds s.totalblocks (word s.buffer_bat))
        (bitmap_findnset-Finds s.totalblocks (word s.buffer_bat) (omega arith)) in
    (f.0, put_words s.buffer_bat f.1, find_block-step s f.0 f.1 h e, Finds-Takes s f.0 f.1 x)
