-- ===== src/Tfs/Volume/Words.antt =====
-- Words of the buffers of fs/tfs.c, and the bits of the allocation block.
use aar.Base.{
  ℕ, ◌+◌, ◌-◌, ◌*◌, ◌/◌, ◌%◌, ◌^◌, ◌<◌, ◌≡◌, ◌≢◌, refl, sym, ap, ◌∙◌, true, ltb, ◌==◌, arith,
}
use aar.Libc.{byte}
use aar.Bitmap.{get_bit}
use aar.Bitmap.Bits.{bit, bit-high}
use aar.Bitmap.Update.{get_bit-bit}
use aar.Tfs.{word, put_word, put_words}

-- A word is put together again from its bytes.
bytes-word :
    (x : ℕ) → byte x 3 * 16777216 + byte x 2 * 65536 + byte x 1 * 256 + byte x 0 ≡ x % 4294967296
bytes-word x = omega arith

put_words-byte :
    (b w : ℕ → ℕ) (i c : ℕ) → i < 128 → c < 4 → put_words b w (4 * i + c) ≡ byte (w i) (3 - c)
put_words-byte b w i c h k =
    let inside : ltb (4 * i + c) 512 ≡ true = ground arith in
    let at : (4 * i + c) / 4 ≡ i = omega arith in
    let place : (4 * i + c) % 4 ≡ c = omega arith in rw (inside, at, place) refl

pub word-put_words : (b w : ℕ → ℕ) (i : ℕ) → i < 128 → word (put_words b w) i ≡ w i % 4294967296
unfolding word
word-put_words b w i h =
    let first : 4 * i + 0 ≡ 4 * i = omega arith in
    let e0 = ap (put_words b w) (sym first) ∙ put_words-byte b w i 0 h (omega arith) in
    let e1 = put_words-byte b w i 1 h (omega arith) in
    let e2 = put_words-byte b w i 2 h (omega arith) in
    let e3 = put_words-byte b w i 3 h (omega arith) in rw (e0, e1, e2, e3) (bytes-word (w i))

put_word-byte : (b : ℕ → ℕ) (i x c : ℕ) → c < 4 → put_word b i x (4 * i + c) ≡ byte x (3 - c)
put_word-byte b i x c k =
    let at : ((4 * i + c) / 4 == i) ≡ true = ground arith in
    let place : (4 * i + c) % 4 ≡ c = omega arith in rw (at, place) refl

pub word-put_word : (b : ℕ → ℕ) (i x : ℕ) → word (put_word b i x) i ≡ x % 4294967296
unfolding word
word-put_word b i x =
    let first : 4 * i + 0 ≡ 4 * i = omega arith in
    let e0 = ap (put_word b i x) (sym first) ∙ put_word-byte b i x 0 (omega arith) in
    let e1 = put_word-byte b i x 1 (omega arith) in
    let e2 = put_word-byte b i x 2 (omega arith) in
    let e3 = put_word-byte b i x 3 (omega arith) in rw (e0, e1, e2, e3) (bytes-word x)

pub word-put_other : (b : ℕ → ℕ) (i k x : ℕ) → i ≢ k → word (put_word b i x) k ≡ word b k
unfolding word
word-put_other b i k x h = ground arith

-- Reading a bit of the words that were put into a buffer.
pub get_bit-put_words :
    (b w : ℕ → ℕ) (q : ℕ) → q < 4096 → get_bit (word (put_words b w)) q ≡ get_bit w q
get_bit-put_words b w q h =
    let x = w (q / 32) in
    let split : x ≡ x % 4294967296 + 2 ^ 32 * (x / 4294967296) = omega arith in
    get_bit-bit (word (put_words b w)) q
    ∙ ap (λ t. bit t (q % 32)) (word-put_words b w (q / 32) (omega arith))
    ∙ sym (bit-high 32 (q % 32) (x % 4294967296) (x / 4294967296) (omega arith))
    ∙ ap (λ t. bit t (q % 32)) (sym split)
    ∙ sym (get_bit-bit w q)
