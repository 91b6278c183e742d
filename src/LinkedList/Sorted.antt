-- ===== src/LinkedList/Sorted.antt =====
-- SortedList of lib/list.h and lib/list.cc. Of the number that `compare` returns only the sign is
-- used: Ordering.lt where it is negative, Ordering.gt where it is positive.
pub mod Cells
pub mod Inserting
pub mod Laws
mod Tests
use Prim.Native.Nat.{Ordering}
use nach_os.Base.{
  ℕ, zero, suc, ◌+◌, ◌≡◌, Bool, true, false, not, List, [], ◌∷◌, Result, ok, fault, ◌>>=◌, ◌>>◌,
  assert, ◌==◌, if◌then◌else◌, contains,
}
use nach_os.LinkedList.{
  Ptr, null, LinkedList, load, set_next, is_empty, is_in_list, new_element, count_one, sanity_check,
}

abbrev pub is_negative : Ordering → Bool
is_negative Ordering.lt = true
is_negative _ = false

abbrev pub is_positive : Ordering → Bool
is_positive Ordering.gt = true
is_positive _ = false

-- numInList++ and the last ASSERT.
unfoldable pub counted : LinkedList → ℕ → Result LinkedList
counted l item = do found ← is_in_list (count_one l) item; assert found; ok (count_one l)

-- element->next = next; ptr->next = element; numInList++
unfoldable pub link_between : LinkedList → Ptr → Ptr → Ptr → Result LinkedList
link_between l ptr element next = do
  h ← set_next l.heap element next
  h1 ← set_next h ptr element
  ok (count_one (record l { heap = h1 }))

module _ (compare : ℕ → ℕ → Ordering) where
  -- The loop of Insert, and whether it has returned.
  unfoldable pub insert_loop : ℕ → LinkedList → Ptr → Ptr → ℕ → Result (Bool × LinkedList)
  insert_loop zero l ptr element item = fault
  insert_loop (suc n) l ptr element item = do
    e ← load l.heap ptr
    if e.next == null then ok (false, l) else (do
      b ← load l.heap e.next
      if is_negative (compare item b.item)
          then (do l1 ← link_between l ptr element e.next; ok (true, l1))
          else insert_loop n l e.next element item)

  unfoldable pub insert_behind : LinkedList → Ptr → ℕ → Result LinkedList
  insert_behind l element item = do
    (returned, l1) ← insert_loop (l.num_in_list + 1) l l.first element item
    if returned then ok l1 else (do
      h ← set_next l1.heap l1.last element
      counted (record l1 { heap = h; last = element }) item)

  unfoldable pub insert_first : LinkedList → Ptr → ℕ → Result LinkedList
  insert_first l element item = do
    h ← set_next l.heap element l.first
    counted (record l { heap = h; first = element }) item

  unfoldable pub insert_in_order : LinkedList → Ptr → ℕ → Result LinkedList
  insert_in_order l element item =
      if is_empty l then counted (record l { first = element; last = element }) item else (do
        e ← load l.heap l.first
        if is_negative (compare item e.item)
            then insert_first l element item
            else insert_behind l element item)

  unfoldable pub insert : LinkedList → Ptr → ℕ → Result LinkedList
  insert l element item = do
    found ← is_in_list (new_element l element item) item
    assert (not found)
    insert_in_order (new_element l element item) element item

  -- The loop of SortedList::SanityCheck.
  unfoldable pub order_loop : ℕ → LinkedList → ℕ → Ptr → Result (Unit {0})
  order_loop zero l prev ptr = fault
  order_loop (suc n) l prev ptr = if ptr == null then ok tt else (do
    e ← load l.heap ptr
    assert (not (is_positive (compare prev e.item)))
    order_loop n l e.item e.next)

  unfoldable pub sorted_sanity_check : LinkedList → Result (Unit {0})
  sorted_sanity_check l = do
    sanity_check l
    if l.first == l.last
        then ok tt
        else (do e ← load l.heap l.first; order_loop (l.num_in_list + 1) l e.item e.next)

  -- What Insert promises: the item is put before the first that is greater.
  unfoldable pub place : ℕ → List ℕ → List ℕ
  place item [] = item ∷ []
  place item (x ∷ xs) = if is_negative (compare item x) then item ∷ x ∷ xs else x ∷ place item xs

  abbrev pub Follows : ℕ → List ℕ → Type 0
  Follows x [] = Unit {0}
  Follows x (y ∷ xs) = is_positive (compare x y) ≡ false

  -- No item is greater than the next one.
  abbrev pub Sorted : List ℕ → Type 0
  Sorted [] = Unit {0}
  Sorted (x ∷ xs) = Follows x xs × Sorted xs
