-- ===== src/LinkedList/Sorted/Tests.antt =====
-- Insertion at a concrete input.
use Prim.Native.Nat.{compare}
use nach_os.Base.{
  ℕ, ◌≡◌, ◌⊎◌, refl, true, false, none, some, [], ◌∷◌, ok, abort, arith, contains, ◌==◌,
  if◌then◌else◌,
}
use nach_os.LinkedList.{Heap, LinkedList}
use nach_os.LinkedList.Cells.{Cells, items, element}
use nach_os.LinkedList.Adding.{Represents}
use nach_os.LinkedList.Sorted.{is_negative, is_positive, insert, sorted_sanity_check, place, Sorted}
use nach_os.LinkedList.Sorted.Laws.{insert_lem}

abbrev three_memory : Heap
three_memory p =
    if p == 4
    then some (element 8 20)
    else if p == 8
    then some (element 5 30)
    else if p == 5
    then some (element 0 40)
    else none

-- The items 20, 30 and 40.
abbrev three : LinkedList
three = record { heap = three_memory; first = 4; last = 5; num_in_list = 3 }

abbrev three_cells : Cells
three_cells = (4, 20) ∷ (8, 30) ∷ (5, 40) ∷ []

three-Represents : Represents three three_cells
three-Represents = record {
  chain = (
    λ z. omega arith,
    refl,
    refl,
    (λ z. omega arith, refl, refl, (λ z. omega arith, refl, refl, tt)),
  );
  first = refl;
  last = refl;
  count = refl;
  distinct = (refl, (refl, (refl, tt)));
}

back : (x y : ℕ) → is_negative (compare x y) ≡ false → is_positive (compare y x) ≡ false
back x y h = ground arith

insert_lem_example :
    (contains (items three_cells) 35 ≡ true) × (insert compare three 6 35 ≡ abort)
    ⊎ (l1 : LinkedList) × (cells1 : Cells) × (insert compare three 6 35 ≡ ok l1)
      × Represents l1 cells1
      × (items cells1 ≡ place compare 35 (items three_cells))
      × Sorted compare (items cells1)
      × (sorted_sanity_check compare l1 ≡ ok tt)
insert_lem_example =
    insert_lem compare back three three_cells 6 35 three-Represents (refl, (refl, (tt, tt)))
      (λ z. omega arith) refl
