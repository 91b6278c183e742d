-- ===== src/Bitmap.antt =====
-- lib/bitmap.h and lib/bitmap.cc: a fixed array of bits over 32-bit words. A bit number is a
-- natural number (the code's other assertion, `which >= 0`, is about negative ones).
-- An operation that modifies the bitmap returns the new one, or `abort` where an ASSERT fails.
pub mod View
pub mod Laws
pub mod Search
mod Tests
use nach_os.Base.{
  fault, length, ℕ, zero, suc, ◌+◌, ◌-◌, ◌/◌, ◌%◌, ◌^◌, Bool, true, false, not, List, Option, none,
  some, Result, ok, abort, ◌>>=◌, ◌>>◌, assert, bit_and, bit_or, ltb, ◌==◌, if◌then◌else◌, get_or,
  set, replicate,
}

abbrev pub bits_in_word : ℕ
bits_in_word = 32

-- divRoundUp of lib/utility.h
abbrev pub div_round_up : ℕ → ℕ → ℕ
div_round_up n s = n / s + (if ltb 0 (n % s) then 1 else 0)

pub record Bitmap : Type 0 where
  pub num_bits : ℕ
  pub num_words : ℕ
  pub words : List ℕ

-- The word `map[k]`, of a `k` in the array.
abbrev pub word_at : Bitmap → ℕ → ℕ
word_at b k = get_or b.words k 0

-- The access to `map[k]`, which faults outside the array.
unfoldable pub read_word : Bitmap → ℕ → Result ℕ
read_word b k = if ltb k (length b.words) then ok (word_at b k) else fault

-- `1 << k`, and the complement of a word
abbrev pub mask : ℕ → ℕ
mask k = 2 ^ k

abbrev pub complement : ℕ → ℕ
complement w = 2 ^ 32 - 1 - w

unfoldable pub test : Bitmap → ℕ → Result Bool
test b which = do
  assert (ltb which b.num_bits)
  word ← read_word b (which / bits_in_word)
  ok (not (bit_and word (mask (which % bits_in_word)) == 0))

unfoldable pub mark : Bitmap → ℕ → Result Bitmap
mark b which = do
  assert (ltb which b.num_bits)
  let k = which / bits_in_word
  word ← read_word b k
  let b' = record b { words = set b.words k (bit_or word (mask (which % bits_in_word))) }
  marked ← test b' which
  assert marked
  ok b'

unfoldable pub clear : Bitmap → ℕ → Result Bitmap
clear b which = do
  assert (ltb which b.num_bits)
  let k = which / bits_in_word
  word ← read_word b k
  let b' = record b {
    words = set b.words k (bit_and word (complement (mask (which % bits_in_word))));
  }
  marked ← test b' which
  assert (not marked)
  ok b'

-- `for (i = i; i < i + n; i++) Clear(i)`, the number of rounds left first
unfoldable pub clear_from : ℕ → ℕ → Bitmap → Result Bitmap
clear_from zero i b = ok b
clear_from (suc n) i b = clear b i >>= λ b'. clear_from n (suc i) b'

unfoldable pub mark_from : ℕ → ℕ → Bitmap → Result Bitmap
mark_from zero i b = ok b
mark_from (suc n) i b = mark b i >>= λ b'. mark_from n (suc i) b'

-- The constructor.
unfoldable pub new : ℕ → Result Bitmap
new num_items = do
  assert (ltb 0 num_items)
  clear_from num_items 0 (record {
    num_bits = num_items;
    num_words = div_round_up num_items bits_in_word;
    words = replicate (div_round_up num_items bits_in_word) 0;
  })

-- The loop of FindAndSet; `none` is its -1.
unfoldable pub find_from : ℕ → ℕ → Bitmap → Result (Option ℕ × Bitmap)
find_from zero i b = ok (none, b)
find_from (suc n) i b = do
  marked ← test b i
  let rest = find_from n (suc i) b
  if marked then rest else mark b i >>= λ b'. ok (some i, b')

unfoldable pub find_and_set : Bitmap → Result (Option ℕ × Bitmap)
find_and_set b = find_from b.num_bits 0 b

unfoldable pub count_from : ℕ → ℕ → Bitmap → Result ℕ
count_from zero i b = ok 0
count_from (suc n) i b = do
  marked ← test b i
  count ← count_from n (suc i) b
  ok (if marked then count else suc count)

unfoldable pub num_clear : Bitmap → Result ℕ
num_clear b = count_from b.num_bits 0 b

-- Bitmap::SelfTest, on the bitmap that it is called on. Nothing is left changed when it passes.
unfoldable pub self_test : Bitmap → Result Bitmap
self_test b = do
  assert (not (ltb b.num_bits bits_in_word))
  empty ← num_clear b
  assert (empty == b.num_bits)
  (first, b1) ← find_and_set b
  assert (is_index first 0)
  b2 ← mark b1 31
  at_0 ← test b2 0
  at_31 ← test b2 31
  assert at_0
  assert at_31
  (second, b3) ← find_and_set b2
  assert (is_index second 1)
  b4 ← clear b3 0
  b5 ← clear b4 1
  b6 ← clear b5 31
  b7 ← mark_from b.num_bits 0 b6
  (full, b8) ← find_and_set b7
  assert (is_none full)
  clear_from b.num_bits 0 b8
  where
    is_index : Option ℕ → ℕ → Bool
    is_index none k = false
    is_index (some i) k = i == k

    is_none : Option ℕ → Bool
    is_none none = true
    is_none (some i) = false
