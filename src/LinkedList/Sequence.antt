-- ===== src/LinkedList/Sequence.antt =====
-- What lib/list.cc promises: a list is the sequence of its items, with the assertions of the code.
-- An item is a pointer or a number, and is compared by `==`.
use nach_os.Base.{
  ℕ, not, List, [], ◌∷◌, ◌++◌, Result, ok, abort, fault, ◌>>◌, assert, contains, ◌==◌,
  if◌then◌else◌,
}

unfoldable pub append : List ℕ → ℕ → Result (List ℕ)
append items item = do assert (not (contains items item)); ok (items ++ item ∷ [])

unfoldable pub prepend : List ℕ → ℕ → Result (List ℕ)
prepend items item = do assert (not (contains items item)); ok (item ∷ items)

unfoldable pub remove_front : List ℕ → Result (ℕ × List ℕ)
remove_front [] = abort
remove_front (item ∷ items) = ok (item, items)

-- first->item, on a list that may be empty.
unfoldable pub front : List ℕ → Result ℕ
front [] = fault
front (item ∷ items) = ok item

-- The items without `item`.
unfoldable pub erase : List ℕ → ℕ → List ℕ
erase [] item = []
erase (x ∷ items) item = if x == item then items else x ∷ erase items item

unfoldable pub remove : List ℕ → ℕ → Result (List ℕ)
unfolding erase
remove items item = do assert (contains items item); ok (erase items item)
