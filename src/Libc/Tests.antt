-- ===== src/Libc/Tests.antt =====
-- Short strings and a small memory, on which the theorems on kudos/lib/libc.c are tried.
use aar.Base.{ℕ, zero, suc, ◌+◌, ◌<◌, ◌≡◌, refl, ◌≢◌, inr, true, [], ◌∷◌, get_or, arith}
use aar.Base.Int.{pos}
use aar.Libc.{stringcopy, memcopy, to_big_endian16}
use aar.Libc.Memory.{memcopy-blit}
use aar.Libc.Strings.{HasLength, stringcopy-copied}
use aar.Libc.Words.{to_big_endian16-zero}

-- "ab" at the address 2, and other bytes around it.
abbrev some_memory : ℕ → ℕ
some_memory i = get_or (7 ∷ 7 ∷ 97 ∷ 98 ∷ 0 ∷ 9 ∷ 9 ∷ 9 ∷ 5 ∷ 5 ∷ 5 ∷ 5 ∷ 5 ∷ []) i 1

two_characters : HasLength some_memory 2 4 2
two_characters = record { fits = omega arith; nonzero = nonzero; ends = inr refl }
  where
    nonzero : (j : ℕ) → j < 2 → some_memory (2 + j) ≢ 0
    nonzero zero h e = omega arith
    nonzero (suc zero) h e = omega arith
    nonzero (suc (suc j)) h e = absurd (omega arith)

stringcopy-copied_example : (stringcopy 8 2 (pos 5) some_memory).1 11 ≡ 5
stringcopy-copied_example =
    stringcopy-copied 4 2 8 2 some_memory 11 (inr (omega arith)) two_characters

memcopy-blit_example : memcopy (pos 5) 8 0 some_memory 12 ≡ 0
memcopy-blit_example = memcopy-blit 5 8 0 some_memory 12 (inr (omega arith))

to_big_endian16-zero_example : to_big_endian16 true 258 ≡ 0
to_big_endian16-zero_example = to_big_endian16-zero 258 (omega arith)
