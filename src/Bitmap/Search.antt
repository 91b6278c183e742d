-- ===== src/Bitmap/Search.antt =====
-- The loops of bitmap.cc against the view: the constructor, FindAndSet and NumClear.
use nach_os.Base.{
  ℕ, zero, suc, ◌+◌, ◌/◌, ◌%◌, ◌≤◌, ◌<◌, ◌≡◌, refl, ap, ◌∙◌, Bool, true, false, Option, none, some,
  Result, ok, ltb, leb, ◌==◌, if◌then◌else◌, arith, lt→ltb, length-replicate, get_or-replicate,
  replicate, ◌⊎◌, inl, inr, Bool-cases, ◌&&◌,
}
use native.Mathlib.Decide.{ℕ_discrete}
use nach_os.Base.Words.{zero-bit}
use nach_os.Bitmap.{
  Bitmap, div_round_up, clear_from, mark_from, new, find_from, find_and_set, count_from, num_clear,
}
use nach_os.Bitmap.View.{is_marked, IsValid, Updated, clear_count}
use nach_os.Bitmap.Laws.{test-lt, mark_lem, clear_lem}

-- `b'` is `b` with the bits `i`, .., `i + n - 1` set to `v`.
pub record Filled (b : Bitmap) (i n : ℕ) (v : Bool) (b' : Bitmap) : Type 0 where
  pub valid : IsValid b'
  pub num_bits : b'.num_bits ≡ b.num_bits
  pub bits : (j : ℕ) → is_marked b' j ≡ (if leb i j && ltb j (i + n) then v else is_marked b j)

Filled-none : {b : Bitmap} (i : ℕ) (v : Bool) → IsValid b → Filled b i 0 v b
Filled-none i v valid = record { valid = valid; num_bits = refl; bits = λ j. ground arith }

Filled-more :
    {b b' b'' : Bitmap} {v : Bool} {i n : ℕ}
    → Updated b i v b'
    → Filled b' (suc i) n v b''
    → Filled b i (suc n) v b''
Filled-more {i = i} u f = record {
  valid = f.valid;
  num_bits = f.num_bits ∙ u.num_bits;
  bits = λ j. ground (arith, f.bits j, u.bits j);
}

pub clear_from_lem :
    (n i : ℕ) {b : Bitmap}
    → IsValid b
    → i + n ≤ b.num_bits
    → (b' : Bitmap) × (clear_from n i b ≡ ok b') × Filled b i n false b'
unfolding clear_from
clear_from_lem zero i {b} v h = (b, refl, Filled-none i false v)
clear_from_lem (suc n) i {b} v h =
    let (b', e, u) = clear_lem v i (omega arith) in
    let (b'', e', f) = clear_from_lem n (suc i) u.valid (omega (arith, u.num_bits)) in
    (b'', rw (e, clear_from) e', Filled-more u f)

pub mark_from_lem :
    (n i : ℕ) {b : Bitmap}
    → IsValid b
    → i + n ≤ b.num_bits
    → (b' : Bitmap) × (mark_from n i b ≡ ok b') × Filled b i n true b'
unfolding mark_from
mark_from_lem zero i {b} v h = (b, refl, Filled-none i true v)
mark_from_lem (suc n) i {b} v h =
    let (b', e, u) = mark_lem v i (omega arith) in
    let (b'', e', f) = mark_from_lem n (suc i) u.valid (omega (arith, u.num_bits)) in
    (b'', rw (e, mark_from) e', Filled-more u f)

module _ (num_items : ℕ) where
  abbrev allocated : Bitmap
  allocated = record {
    num_bits = num_items;
    num_words = div_round_up num_items 32;
    words = replicate (div_round_up num_items 32) 0;
  }

  allocated-IsValid : IsValid allocated
  allocated-IsValid = record {
    sized = refl;
    stored = length-replicate (div_round_up num_items 32) 0;
    fits = λ k. rw (get_or-replicate {A = ℕ} (div_round_up num_items 32) 0 k) (omega arith);
  }

  allocated-clear : (j : ℕ) → is_marked allocated j ≡ false
  allocated-clear j =
      rw (get_or-replicate {A = ℕ} (div_round_up num_items 32) 0 (j / 32), zero-bit (j % 32))

  -- The constructor returns a well-formed bitmap with every bit clear.
  pub new_lem :
      0 < num_items
      → (b : Bitmap) × (new num_items ≡ ok b)
        × IsValid b
        × (b.num_bits ≡ num_items)
        × ((j : ℕ) → is_marked b j ≡ false)
  unfolding new
  new_lem h =
      let (b, e, f) = clear_from_lem num_items 0 allocated-IsValid (omega arith) in
      (
        b,
        rw (lt→ltb 0 num_items h) e,
        f.valid,
        f.num_bits,
        λ j. ground (arith, f.bits j, allocated-clear j),
      )

-- How a search of the bits `i`, .., `i + n - 1` of `b` may end.
abbrev pub Found : Bitmap → ℕ → ℕ → Result (Option ℕ × Bitmap) → Type 0
Found b i n r =
    ((r ≡ ok (none, b)) × ((j : ℕ) → i ≤ j → j < i + n → is_marked b j ≡ true))
    ⊎ ((k : ℕ) × (b' : Bitmap) × (r ≡ ok (some k, b'))
        × (i ≤ k)
        × (k < i + n)
        × (is_marked b k ≡ false)
        × ((j : ℕ) → i ≤ j → j < k → is_marked b j ≡ true)
        × Updated b k true b')

extend_down :
    (f : ℕ → Bool) (i end : ℕ)
    → f i ≡ true
    → ((j : ℕ) → suc i ≤ j → j < end → f j ≡ true)
    → (j : ℕ) → i ≤ j
    → j < end
    → f j ≡ true
extend_down f i end here above j p q = elim (ℕ_discrete i j) [
  | yes e ↦ rw (← e) here
  | no e ↦ above j (omega arith) q
]

find_from-Found :
    (n i : ℕ) {b : Bitmap} → IsValid b → i + n ≤ b.num_bits → Found b i n (find_from n i b)
unfolding find_from
find_from-Found zero i {b} v h = inl (refl, λ j p q. absurd (omega arith))
find_from-Found (suc n) i {b} v h = elim (Bool-cases (is_marked b i)) [
  | inr free ↦
      let (b', e, u) = mark_lem v i (omega arith) in
      inr (
        i,
        b',
        rw (test-lt v i (omega arith), free, e) refl,
        omega arith,
        omega arith,
        free,
        λ j p q. absurd (omega arith),
        u,
      )
  | inl used ↦ elim (find_from-Found n (suc i) v (omega arith)) [
    | inl (e, all) ↦ inl (
      rw (test-lt v i (omega arith), used) e,
      λ j p q. extend_down (is_marked b) i (i + suc n) used (λ k s l. all k s (omega arith)) j p q,
    )
    | inr (k, b', e, p, q, free, below, u) ↦ inr (
      k,
      b',
      rw (test-lt v i (omega arith), used) e,
      omega arith,
      omega arith,
      free,
      extend_down (is_marked b) i k used below,
      u,
    )
  ]
]

count_from_lem :
    (n i : ℕ) {b : Bitmap}
    → IsValid b
    → i + n ≤ b.num_bits
    → count_from n i b ≡ ok (clear_count (is_marked b) n i)
unfolding count_from clear_count
count_from_lem zero i v h = refl
count_from_lem (suc n) i v h =
    rw (test-lt v i (omega arith), count_from_lem n (suc i) v (omega arith)) (ground arith)

-- NumClear of a well-formed bitmap is the number of clear bits, and never fails.
pub num_clear_lem :
    {b : Bitmap} → IsValid b → num_clear b ≡ ok (clear_count (is_marked b) b.num_bits 0)
unfolding num_clear
num_clear_lem {b} v = count_from_lem b.num_bits 0 v (omega arith)

-- FindAndSet ends with the first clear bit, now marked and all else as before, or with -1 and
-- every bit marked.
pub find_and_set-Found : {b : Bitmap} → IsValid b → Found b 0 b.num_bits (find_and_set b)
unfolding find_and_set
find_and_set-Found {b} v = find_from-Found b.num_bits 0 v (omega arith)

-- Counting after one bit has changed.
clear_count-same :
    (f g : ℕ → Bool) (n i : ℕ)
    → ((j : ℕ) → i ≤ j → j < i + n → f j ≡ g j)
    → clear_count f n i ≡ clear_count g n i
unfolding clear_count
clear_count-same f g zero i h = refl
clear_count-same f g (suc n) i h = ground (
  arith,
  h i (omega arith) (omega arith),
  clear_count-same f g n (suc i) (λ j p q. h j (omega arith) (omega arith)),
)

pub clear_count-mark :
    (f g : ℕ → Bool) (k n i : ℕ)
    → f k ≡ false
    → ((j : ℕ) → g j ≡ (if k == j then true else f j))
    → i ≤ k
    → k < i + n
    → clear_count f n i ≡ suc (clear_count g n i)
unfolding clear_count
clear_count-mark f g k zero i free marks p q = absurd (omega arith)
clear_count-mark f g k (suc n) i free marks p q = elim (ℕ_discrete k i) [
  | yes e ↦
      ground
        (arith, marks i, ap f e, clear_count-same f g n (suc i) (λ j r s. ground (arith, marks j)))
  | no e ↦
      ground
        (arith, marks i, clear_count-mark f g k n (suc i) free marks (omega arith) (omega arith))
]

pub clear_count-full :
    (f : ℕ → Bool) (n i : ℕ) → ((j : ℕ) → i ≤ j → j < i + n → f j ≡ true) → clear_count f n i ≡ 0
unfolding clear_count
clear_count-full f zero i h = refl
clear_count-full f (suc n) i h = ground (
  arith,
  h i (omega arith) (omega arith),
  clear_count-full f n (suc i) (λ j p q. h j (omega arith) (omega arith)),
)

pub clear_count-empty : (f : ℕ → Bool) (n i : ℕ) → ((j : ℕ) → f j ≡ false) → clear_count f n i ≡ n
unfolding clear_count
clear_count-empty f zero i h = refl
clear_count-empty f (suc n) i h = ground (arith, h i, clear_count-empty f n (suc i) h)
