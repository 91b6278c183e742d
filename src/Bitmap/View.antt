-- ===== src/Bitmap/View.antt =====
-- What a bitmap stands for, the set of its marked bits, and when it is well formed.
use nach_os.Base.{ℕ, zero, suc, ◌+◌, ◌/◌, ◌%◌, ◌^◌, ◌<◌, ◌≡◌, Bool, ◌==◌, if◌then◌else◌, length}
use nach_os.Base.Words.{bit}
use nach_os.Bitmap.{Bitmap, word_at, bits_in_word, div_round_up}

-- The abstract view.
abbrev pub is_marked : Bitmap → ℕ → Bool
is_marked b i = bit (word_at b (i / bits_in_word)) (i % bits_in_word) == 1

pub record IsValid (b : Bitmap) : Type 0 where
  pub sized : b.num_words ≡ div_round_up b.num_bits bits_in_word
  pub stored : length b.words ≡ b.num_words
  pub fits : (k : ℕ) → word_at b k < 2 ^ 32

-- `b'` is `b` with bit `i` set to `v`.
pub record Updated (b : Bitmap) (i : ℕ) (v : Bool) (b' : Bitmap) : Type 0 where
  pub valid : IsValid b'
  pub num_bits : b'.num_bits ≡ b.num_bits
  pub bits : (j : ℕ) → is_marked b' j ≡ (if i == j then v else is_marked b j)

-- The number of clear bits among `i`, `i + 1`, .., `i + n - 1`.
unfoldable pub clear_count : (ℕ → Bool) → ℕ → ℕ → ℕ
clear_count f zero i = 0
clear_count f (suc n) i = (if f i then 0 else 1) + clear_count f n (suc i)
