-- ===== src/Bitmap/Tests.antt =====
-- Runs of the bitmap, and its theorems at concrete bitmaps.
use nach_os.Base.{
  ℕ, zero, suc, ◌<◌, ◌^◌, ◌≡◌, refl, true, false, [], ◌∷◌, some, ok, abort, arith, ◌>>=◌,
}
use nach_os.Bitmap.{
  read_word, Bitmap, word_at, test, mark, clear, clear_from, mark_from, new, find_from,
  find_and_set, count_from, num_clear, self_test,
}
use nach_os.Bitmap.View.{is_marked, IsValid, Updated, clear_count}
use nach_os.Bitmap.Laws.{mark_clear_lem}
use nach_os.Bitmap.Search.{new_lem, find_and_set-Found, Found, num_clear_lem}

-- Forty bits, of which 0, 2 and 33 are marked.
abbrev forty : Bitmap
forty = record { num_bits = 40; num_words = 2; words = 5 ∷ 2 ∷ [] }

forty-fits : (k : ℕ) → word_at forty k < 2 ^ 32
forty-fits zero = omega arith
forty-fits (suc zero) = omega arith
forty-fits (suc (suc k)) = omega arith

forty-IsValid : IsValid forty
forty-IsValid = record { sized = refl; stored = refl; fits = forty-fits }

-- SelfTest passes on a new bitmap of forty bits, and leaves it clear.
self_test_passes : (new 40 >>= self_test) ≡ ok (record forty { words = 0 ∷ 0 ∷ [] })
unfolding self_test new clear_from mark_from find_and_set find_from num_clear count_from test mark
    clear read_word
self_test_passes = refl

mark_past_end : mark forty 40 ≡ abort
unfolding mark read_word
mark_past_end = refl

find_and_set_runs : find_and_set forty ≡ ok (some 1, record forty { words = 7 ∷ 2 ∷ [] })
unfolding find_and_set find_from test mark read_word
find_and_set_runs = refl

new_lem_example :
    (b : Bitmap) × (new 40 ≡ ok b)
    × IsValid b
    × (b.num_bits ≡ 40)
    × ((j : ℕ) → is_marked b j ≡ false)
new_lem_example = new_lem 40 (omega arith)

mark_clear_lem_example :
    ((b : Bitmap) × (mark forty 33 ≡ ok b) × Updated forty 33 true b)
    × ((b : Bitmap) × (clear forty 33 ≡ ok b) × Updated forty 33 false b)
mark_clear_lem_example = mark_clear_lem forty-IsValid 33 (omega arith)

find_and_set-Found_example : Found forty 0 40 (find_and_set forty)
find_and_set-Found_example = find_and_set-Found forty-IsValid

num_clear_lem_example : num_clear forty ≡ ok (clear_count (is_marked forty) 40 0)
num_clear_lem_example = num_clear_lem forty-IsValid
