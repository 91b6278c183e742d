-- ===== src/Bitmap/Laws.antt =====
-- Test, Mark and Clear against the view.
use nach_os.Base.{
  lt→ltb, if_true, ==_refl, ℕ, ◌/◌, ◌%◌, ◌^◌, ◌≤◌, ◌<◌, ◌≡◌, refl, ◌∙◌, Bool, true, false, ok,
  abort, bit_and, bit_or, ◌==◌, if◌then◌else◌, set, length, arith, ge→ltb, length-set,
  get_or-set_self, get_or-set_ne,
}
use nach_os.Base.Words.{
  bit, bit_and-two_pow, bit_le_one, bit-bit_or, bit-bit_and, bit-two_pow, bit-complement, bit_or-lt,
  two_pow-lt, bit_and-le,
}
use native.Mathlib.Nat.{one-le-pow}
use native.Mathlib.Decide.{ℕ_discrete}
use nach_os.Bitmap.{Bitmap, word_at, mask, complement, read_word, test, mark, clear}
use nach_os.Bitmap.View.{is_marked, IsValid, Updated}

-- the index of a bit's word is in range
in_range : {b : Bitmap} → IsValid b → (i : ℕ) → i < b.num_bits → i / 32 < length b.words
in_range v i h = ground arith

read_word-lt :
    {b : Bitmap}
    → IsValid b
    → (i : ℕ) → i < b.num_bits
    → read_word b (i / 32) ≡ ok (word_at b (i / 32))
unfolding read_word
read_word-lt v i h = if_true _ _ (lt→ltb _ _ (in_range v i h))

pub test-lt : {b : Bitmap} → IsValid b → (i : ℕ) → i < b.num_bits → test b i ≡ ok (is_marked b i)
unfolding test
test-lt {b} v i h =
    rw (lt→ltb i b.num_bits h, read_word-lt v i h)
      (ground (
        arith,
        bit_and-two_pow (i % 32) (word_at b (i / 32)),
        bit_le_one (word_at b (i / 32)) (i % 32),
        one-le-pow (i % 32) 2,
      ))

pub test-ge : (b : Bitmap) (i : ℕ) → b.num_bits ≤ i → test b i ≡ abort
unfolding test
test-ge b i h = rw (ge→ltb i b.num_bits h)

-- A new value `w` for the word of bit `i`.
module _ {b : Bitmap} (v : IsValid b) (i w : ℕ) (h : i < b.num_bits) (small : w < 2 ^ 32) where
  abbrev replaced : Bitmap
  replaced = record b { words = set b.words (i / 32) w }

  replaced-fits : (k : ℕ) → word_at replaced k < 2 ^ 32
  replaced-fits k = elim (ℕ_discrete (i / 32) k) [
    | yes e ↦ rw (← e, get_or-set_self b.words (i / 32) w 0 (in_range v i h)) small
    | no e ↦ rw (get_or-set_ne b.words (i / 32) k w 0 e) (v.fits k)
  ]

  replaced-IsValid : IsValid replaced
  replaced-IsValid = record {
    sized = v.sized;
    stored = length-set b.words (i / 32) w ∙ v.stored;
    fits = replaced-fits;
  }

  word_of_replaced : (k : ℕ) → word_at replaced k ≡ (if i / 32 == k then w else word_at b k)
  word_of_replaced k = ground (
    arith,
    get_or-set_self b.words (i / 32) w 0 (in_range v i h),
    get_or-set_ne b.words (i / 32) k w 0,
  )

  replaced-Updated :
      (c : Bool)
      → ((k : ℕ)
          → k < 32
          → bit w k ≡ (if i % 32 == k then (if c then 1 else 0) else bit (word_at b (i / 32)) k))
      → Updated b i c replaced
  replaced-Updated c bits = record { valid = replaced-IsValid; num_bits = refl; bits = marks }
    where
      marks : (j : ℕ) → is_marked replaced j ≡ (if i == j then c else is_marked b j)
      marks j = ground (arith, word_of_replaced (j / 32), bits (j % 32) (omega arith))

-- what Mark and Clear write in the word
marked_word : (w k j : ℕ) → bit (bit_or w (mask k)) j ≡ (if k == j then 1 else bit w j)
marked_word w k j = ground (arith, bit-bit_or j w (2 ^ k), bit-two_pow k j, bit_le_one w j)

cleared_word :
    (w k j : ℕ)
    → k < 32
    → j < 32
    → bit (bit_and w (complement (mask k))) j ≡ (if k == j then 0 else bit w j)
cleared_word w k j hk hj = ground (
  arith,
  bit-bit_and j w (complement (mask k)),
  bit-complement 32 j (2 ^ k) (two_pow-lt k 32 hk) hj,
  bit-two_pow k j,
  bit_le_one w j,
)

module _ {b : Bitmap} (v : IsValid b) (i : ℕ) (h : i < b.num_bits) where
  -- Mark of a bit in range succeeds: the bitmap stays well formed, the bit is set, and every other
  -- bit is as before.
  pub mark_lem : (b' : Bitmap) × (mark b i ≡ ok b') × Updated b i true b'
  unfolding mark
  mark_lem = (b', runs, u)
    where
      w : ℕ
      w = bit_or (word_at b (i / 32)) (mask (i % 32))

      b' : Bitmap
      b' = record b { words = set b.words (i / 32) w }

      u : Updated b i true b'
      u =
          replaced-Updated v i w h
            (bit_or-lt 32 (word_at b (i / 32)) (mask (i % 32)) (v.fits (i / 32))
              (two_pow-lt (i % 32) 32 (omega arith)))
            true λ k _. marked_word (word_at b (i / 32)) (i % 32) k

      runs : mark b i ≡ ok b'
      runs =
          rw (lt→ltb i b.num_bits h, read_word-lt v i h, test-lt u.valid i h, u.bits i, ==_refl i)
            refl

  -- Clear of a bit in range succeeds: the bitmap stays well formed, the bit is clear, and every
  -- other bit is as before.
  pub clear_lem : (b' : Bitmap) × (clear b i ≡ ok b') × Updated b i false b'
  unfolding clear
  clear_lem = (b', runs, u)
    where
      w : ℕ
      w = bit_and (word_at b (i / 32)) (complement (mask (i % 32)))

      b' : Bitmap
      b' = record b { words = set b.words (i / 32) w }

      u : Updated b i false b'
      u =
          replaced-Updated v i w h
            (omega (
              arith,
              bit_and-le 32 (word_at b (i / 32)) (complement (mask (i % 32))) (v.fits (i / 32)),
              v.fits (i / 32),
            ))
            false λ k l. cleared_word (word_at b (i / 32)) (i % 32) k (omega arith) l

      runs : clear b i ≡ ok b'
      runs =
          rw (lt→ltb i b.num_bits h, read_word-lt v i h, test-lt u.valid i h, u.bits i, ==_refl i)
            refl

  -- Mark and Clear of a bit in range of a well-formed bitmap succeed: the bitmap stays well formed,
  -- the bit is set, or clear, and every other bit is as before.
  pub mark_clear_lem :
      ((b' : Bitmap) × (mark b i ≡ ok b') × Updated b i true b')
      × ((b' : Bitmap) × (clear b i ≡ ok b') × Updated b i false b')
  mark_clear_lem = (mark_lem, clear_lem)

pub mark-ge : (b : Bitmap) (i : ℕ) → b.num_bits ≤ i → mark b i ≡ abort
unfolding mark
mark-ge b i h = rw (ge→ltb i b.num_bits h)

pub clear-ge : (b : Bitmap) (i : ℕ) → b.num_bits ≤ i → clear b i ≡ abort
unfolding clear
clear-ge b i h = rw (ge→ltb i b.num_bits h)
