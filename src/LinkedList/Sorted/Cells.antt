-- ===== src/LinkedList/Sorted/Cells.antt =====
-- Where Insert of lib/list.cc puts a cell.
use Prim.Native.Nat.{Ordering}
use nach_os.Base.{
  ℕ, ◌+◌, ◌≡◌, ◌≢◌, refl, true, false, ◌||◌, List, [], ◌∷◌, arith, ◌==◌, if◌then◌else◌, Bool-cases,
  inl, inr, contains, Distinct, length,
}
use nach_os.LinkedList.{Ptr}
use nach_os.LinkedList.Cells.{Cells, items, has}
use nach_os.LinkedList.Sorted.{is_negative, is_positive, place, Follows, Sorted}

not_positive : (o : Ordering) → is_negative o ≡ true → is_positive o ≡ false
not_positive Ordering.lt e = refl
not_positive Ordering.eq e = refl
not_positive Ordering.gt e = cc

module _ (compare : ℕ → ℕ → Ordering) where
  pub contains-place :
      (item : ℕ) (xs : List ℕ) (y : ℕ)
      → contains (place compare item xs) y ≡ (contains xs y || item == y)
  unfolding place
  contains-place item [] y = ground arith
  contains-place item (x ∷ xs) y = elim (Bool-cases (is_negative (compare item x))) [
    | inl before ↦ rw before (ground arith)
    | inr behind ↦ rw (behind, contains-place item xs y) (ground arith)
  ]

  pub Distinct-place :
      (item : ℕ) (xs : List ℕ)
      → Distinct xs
      → contains xs item ≡ false
      → Distinct (place compare item xs)
  unfolding place
  Distinct-place item [] d out = (refl, tt)
  Distinct-place item (x ∷ xs) d out = elim (Bool-cases (is_negative (compare item x))) [
    | inl before ↦ rw before (out, d)
    | inr behind ↦
        rw (behind, contains-place item xs x)
          (ground (arith, d.0), Distinct-place item xs d.1 (ground arith))
  ]

  -- Where the item is not before `x`, `x` is not behind the item.
  pub place-Sorted :
      ((x y : ℕ) → is_negative (compare x y) ≡ false → is_positive (compare y x) ≡ false)
      → (item : ℕ) (xs : List ℕ) → Sorted compare xs
      → Sorted compare (place compare item xs)
        × ((x : ℕ)
            → is_negative (compare item x) ≡ false
            → Follows compare x xs
            → Follows compare x (place compare item xs))
  unfolding place
  place-Sorted back item [] s = ((tt, tt), λ x e f. back item x e)
  place-Sorted back item (x ∷ xs) (follows, s) = elim (Bool-cases (is_negative (compare item x))) [
    | inl before ↦
        rw before ((not_positive (compare item x) before, (follows, s)), λ y e f. back item y e)
    | inr behind ↦
        let (s1, f1) = place-Sorted back item xs s in
        rw behind ((f1 x behind follows, s1), λ y e f. f)
  ]

  abbrev pub place_cell : Ptr → ℕ → Cells → Cells
  place_cell p item [] = (p, item) ∷ []
  place_cell p item ((a, v) ∷ cells) =
      if is_negative (compare item v)
      then (p, item) ∷ (a, v) ∷ cells
      else (a, v) ∷ place_cell p item cells

  module _ (p : Ptr) (item : ℕ) where
    pub items-place_cell :
        (cells : Cells) → items (place_cell p item cells) ≡ place compare item (items cells)
    unfolding place
    items-place_cell [] = refl
    items-place_cell ((a, v) ∷ cells) = elim (Bool-cases (is_negative (compare item v))) [
      | inl before ↦ rw before refl
      | inr behind ↦ rw (behind, items-place_cell cells) refl
    ]

    pub has-place_cell :
        (cells : Cells) (b : Ptr) → has (place_cell p item cells) b ≡ (has cells b || b == p)
    has-place_cell [] b = ground arith
    has-place_cell ((a, v) ∷ cells) b = elim (Bool-cases (is_negative (compare item v))) [
      | inl before ↦ rw before (ground arith)
      | inr behind ↦ rw (behind, has-place_cell cells b) (ground arith)
    ]

    pub length-place_cell : (cells : Cells) → length (place_cell p item cells) ≡ length cells + 1
    length-place_cell [] = refl
    length-place_cell ((a, v) ∷ cells) = elim (Bool-cases (is_negative (compare item v))) [
      | inl before ↦ rw before (omega arith)
      | inr behind ↦ rw behind (omega (arith, length-place_cell cells))
    ]

    pub has-place_cell_behind :
        (cells : Cells) (a b : Ptr) (w : ℕ)
        → has ((b, w) ∷ cells) a ≡ false
        → a ≢ p
        → has ((b, w) ∷ place_cell p item cells) a ≡ false
    has-place_cell_behind cells a b w out ne = ground (arith, has-place_cell cells a)
