-- ===== src/Libc.antt =====
-- kudos/lib/libc.c: memory, strings and byte order. Memory is a function from addresses to bytes;
-- a word access reads or writes four of them. atoi and the formatted output are not modelled.
pub mod Memory
pub mod Strings
pub mod Compare
pub mod Words
mod Tests
use aar.Base.{
  ℕ, zero, suc, ◌+◌, ◌-◌, ◌*◌, ◌/◌, ◌%◌, ◌^◌, Bool, true, false, not, ◌&&◌, ◌||◌, Option, none,
  some, update, ltb, leb, ◌==◌, if◌then◌else◌,
}
use aar.Base.Int.{ℤ, pos, negsuc, pos_part, ◌-ℤ◌, eq_ℤ}

-- `t[i] = s[i]` from `i` on, for `n` bytes.
pub copy_bytes : ℕ → ℕ → ℕ → ℕ → (ℕ → ℕ) → ℕ → ℕ
copy_bytes zero i t s m = m
copy_bytes (suc n) i t s m = copy_bytes n (i + 1) t s (update m (t + i) (m (s + i)))

-- `*tgt = *src` on words.
abbrev pub copy_word : ℕ → ℕ → (ℕ → ℕ) → ℕ → ℕ
copy_word t s m x = if leb t x && ltb x (t + 4) then m (s + (x - t)) else m x

pub copy_words : ℕ → ℕ → ℕ → (ℕ → ℕ) → ℕ → ℕ
copy_words zero t s m = m
copy_words (suc n) t s m = copy_words n (t + 4) (s + 4) (copy_word t s m)

-- A negative length gives no rounds.
pub memcopy : ℤ → ℕ → ℕ → (ℕ → ℕ) → ℕ → ℕ
memcopy buflen t s m =
    let n = pos_part buflen in
    if not (t % 4 == 0) || not (s % 4 == 0)
    then copy_bytes n 0 t s m
    else copy_bytes (n % 4) 0 (t + 4 * (n / 4)) (s + 4 * (n / 4)) (copy_words (n / 4) t s m)

-- `tgt[i] = value` from `i` on.
pub set_bytes : ℕ → ℕ → ℕ → ℕ → (ℕ → ℕ) → ℕ → ℕ
set_bytes zero i t value m = m
set_bytes (suc n) i t value m = set_bytes n (i + 1) t value (update m (t + i) value)

unfoldable pub memoryset : ℕ → ℕ → ℤ → (ℕ → ℕ) → ℕ → ℕ
memoryset t value size m = set_bytes (pos_part size) 0 t value m

-- `while (i < buflen) { *target = '\0'; i++; }`
pub pad : ℕ → ℕ → (ℕ → ℕ) → ℕ → ℕ
pad zero t m = m
pad (suc n) t m = pad n t (update m t 0)

-- The rounds of stringcopy, of which `n` are left.
pub copy_string : ℕ → ℕ → ℕ → (ℕ → ℕ) → ℕ → ℕ
copy_string zero t s m = update m t 0
copy_string (suc n) t s m =
    let m' = update m t (m s) in
    let more = copy_string n (t + 1) (s + 1) m' in if m' s == 0 then pad (n + 1) t m' else more

-- The value is the pointer to the target.
pub stringcopy : ℕ → ℕ → ℤ → (ℕ → ℕ) → ℕ × (ℕ → ℕ)
stringcopy t s buflen m = (t, copy_string (pos_part (buflen -ℤ pos 1)) t s m)

-- Strings as the characters that follow a pointer; `fuel` bounds the rounds.
pub stringcmp : ℕ → (ℕ → ℤ) → (ℕ → ℤ) → Option ℤ
stringcmp zero a b = none
stringcmp (suc fuel) a b =
    let more = stringcmp fuel (λ i. a (suc i)) (λ i. b (suc i)) in
    if eq_ℤ (a 0) (pos 0) && eq_ℤ (b 0) (pos 0)
    then some (pos 0)
    else if eq_ℤ (a 0) (pos 0) || (eq_ℤ (b 0) (pos 0) || not (eq_ℤ (a 0) (b 0)))
    then some (a 0 -ℤ b 0)
    else more

-- With `l` characters counted.
pub count_characters : ℕ → ℕ → (ℕ → ℤ) → Option ℕ
count_characters zero l s = none
count_characters (suc fuel) l s =
    let more = count_characters fuel (l + 1) (λ i. s (suc i)) in
    if eq_ℤ (s 0) (pos 0) then some l else more

pub strlen : ℕ → (ℕ → ℤ) → Option ℕ
strlen fuel s = count_characters fuel 0 s

-- The bytes of a word, the least significant first.
abbrev pub byte : ℕ → ℕ → ℕ
byte x i = x / 256 ^ i % 256

pub swap16 : ℕ → ℕ
swap16 x = byte x 0 * 256 + byte x 1

pub swap32 : ℕ → ℕ
swap32 x = byte x 3 + byte x 2 * 256 + byte x 1 * 65536 + byte x 0 * 16777216

-- A result of 32 bits becomes one of 16.
abbrev pub to_big_endian16 : Bool → ℕ → ℕ
to_big_endian16 small_endian x = if small_endian then swap32 x % 2 ^ 16 else x

abbrev pub from_big_endian16 : Bool → ℕ → ℕ
from_big_endian16 small_endian x = if small_endian then swap16 x else x

abbrev pub to_big_endian32 : Bool → ℕ → ℕ
to_big_endian32 small_endian x = if small_endian then swap32 x else x

abbrev pub from_big_endian32 : Bool → ℕ → ℕ
from_big_endian32 small_endian x = if small_endian then swap32 x else x

pub wordpad : ℕ → ℕ
wordpad x = if not (x % 4 == 0) then (x + (4 - x % 4)) % 2 ^ 32 else x
