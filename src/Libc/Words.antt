-- ===== src/Libc/Words.antt =====
-- Byte order and padding in kudos/lib/libc.c.
use aar.Base.{ℕ, ◌+◌, ◌*◌, ◌%◌, ◌^◌, ◌<◌, ◌≤◌, ◌≡◌, sym, true, arith, ◌∙◌}
use aar.Libc.{byte, swap16, swap32, to_big_endian16, wordpad}

-- A word of four bytes.
abbrev word : ℕ → ℕ → ℕ → ℕ → ℕ
word a b c d = a + b * 256 + c * 65536 + d * 16777216

swap32-word :
    (a b c d : ℕ) → a < 256 → b < 256 → c < 256 → d < 256 → swap32 (word a b c d) ≡ word d c b a
unfolding swap32
swap32-word a b c d ha hb hc hd =
    let first : byte (word a b c d) 0 ≡ a = omega arith in
    let second : byte (word a b c d) 1 ≡ b = omega arith in
    let third : byte (word a b c d) 2 ≡ c = omega arith in
    let fourth : byte (word a b c d) 3 ≡ d = omega arith in
    omega (arith, first, second, third, fourth)

word-byte : (x : ℕ) → x < 2 ^ 32 → x ≡ word (byte x 0) (byte x 1) (byte x 2) (byte x 3)
word-byte x h = omega arith

-- swap16 gives a word of 16 bits, and undoes itself on such words.
pub swap16-swap16 : (x : ℕ) → x < 2 ^ 16 → (swap16 x < 2 ^ 16) × (swap16 (swap16 x) ≡ x)
unfolding swap16
swap16-swap16 x h = (omega arith, omega arith)

-- swap32 gives a word of 32 bits, and undoes itself on such words.
pub swap32-swap32 : (x : ℕ) → x < 2 ^ 32 → (swap32 x < 2 ^ 32) × (swap32 (swap32 x) ≡ x)
unfolding swap32
swap32-swap32 x h = (
  omega arith,
  swap32-word (byte x 3) (byte x 2) (byte x 1) (byte x 0) (omega arith) (omega arith) (omega arith)
        (omega arith)
      ∙ sym (word-byte x h),
)

-- wordpad gives the least multiple of four that is no less than its argument, if that fits a word.
pub wordpad-least :
    (x : ℕ) → x + 4 ≤ 2 ^ 32 → (wordpad x % 4 ≡ 0) × (x ≤ wordpad x) × (wordpad x < x + 4)
unfolding wordpad
wordpad-least x h = (ground arith, ground arith, ground arith)

-- to_big_endian16 gives 0 for every 16-bit value where SMALL_ENDIAN is defined.
pub to_big_endian16-zero : (x : ℕ) → x < 2 ^ 16 → to_big_endian16 true x ≡ 0
unfolding swap32
to_big_endian16-zero x h = omega arith
