-- ===== src/LinkedList/Erasing.antt =====
-- What Remove of lib/list.cc leaves of the cells.
use nach_os.Base.{
  ℕ, ◌+◌, ◌≡◌, refl, true, false, List, [], ◌∷◌, arith, ◌==◌, if◌then◌else◌, Bool-cases, inl, inr,
  contains, Distinct, length,
}
use nach_os.LinkedList.{Ptr}
use nach_os.LinkedList.Sequence
use nach_os.LinkedList.Cells.{Cells, items, has}

-- The cells without the first one that holds the item.
abbrev pub erase_cells : Cells → ℕ → Cells
erase_cells [] item = []
erase_cells ((a, v) ∷ cells) item = if v == item then cells else (a, v) ∷ erase_cells cells item

pub items-erase_cells :
    (cells : Cells) (item : ℕ) → items (erase_cells cells item) ≡ Sequence.erase (items cells) item
unfolding Sequence.erase
items-erase_cells [] item = refl
items-erase_cells ((a, v) ∷ cells) item = elim (Bool-cases (v == item)) [
  | inl hit ↦ rw hit refl
  | inr miss ↦ rw (miss, items-erase_cells cells item) refl
]

pub has-erase_cells :
    (cells : Cells) (item : ℕ) (p : Ptr)
    → has cells p ≡ false
    → has (erase_cells cells item) p ≡ false
has-erase_cells [] item p out = refl
has-erase_cells ((a, v) ∷ cells) item p out = elim (Bool-cases (v == item)) [
  | inl hit ↦ rw hit (ground arith)
  | inr miss ↦ rw miss (ground (arith, has-erase_cells cells item p))
]

pub length-erase_cells :
    (cells : Cells) (item : ℕ)
    → contains (items cells) item ≡ true
    → length (erase_cells cells item) + 1 ≡ length cells
length-erase_cells [] item h = cc
length-erase_cells ((a, v) ∷ cells) item h = elim (Bool-cases (v == item)) [
  | inl hit ↦ rw hit (omega arith)
  | inr miss ↦ rw miss (omega (arith, length-erase_cells cells item (ground arith)))
]

-- Remove drops the item, once and for all.
pub erase-Distinct :
    (xs : List ℕ) (item : ℕ)
    → Distinct xs
    → Distinct (Sequence.erase xs item)
      × (contains (Sequence.erase xs item) item ≡ false)
      × ((y : ℕ) → contains xs y ≡ false → contains (Sequence.erase xs item) y ≡ false)
unfolding Sequence.erase
erase-Distinct [] item d = (tt, refl, λ y h. refl)
erase-Distinct (x ∷ xs) item (out, d) =
    let (d', gone, sub) = erase-Distinct xs item d in
    elim (Bool-cases (x == item)) [
      | inl hit ↦ rw hit (d, ground arith, λ y h. ground arith)
      | inr miss ↦ rw miss ((sub x out, d'), ground arith, λ y h. ground (arith, sub y))
    ]
