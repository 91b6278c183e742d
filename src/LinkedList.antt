-- ===== src/LinkedList.antt =====
-- lib/list.h and lib/list.cc: a list of elements in memory, with pointers to the first and the last.
pub mod Sequence
pub mod Cells
pub mod Adding
pub mod Erasing
pub mod Removing
pub mod Sanity
pub mod Runs
pub mod Sorted
pub mod SelfTest
mod Tests
use nach_os.Base.{
  ℕ, zero, suc, ◌+◌, ◌-◌, Bool, true, false, not, Option, none, some, Result, ok, fault, ◌>>=◌,
  ◌>>◌, assert, ◌==◌, leb, if◌then◌else◌,
}

abbrev pub Ptr : Type 0
Ptr = ℕ

abbrev pub null : Ptr
null = 0

pub record ListElement : Type 0 where
  pub next : Ptr
  pub item : ℕ

abbrev pub Heap : Type 0
Heap = Ptr → Option ListElement

-- List, with the memory that holds its elements.
pub record LinkedList : Type 0 where
  pub heap : Heap
  pub first : Ptr
  pub last : Ptr
  pub num_in_list : ℕ

-- List::List
abbrev pub new_list : Heap → LinkedList
new_list h = record { heap = h; first = null; last = null; num_in_list = 0 }

-- `delete` writes `none`.
unfoldable pub write : Heap → Ptr → Option ListElement → Heap
write h p c a = if a == p then c else h a

-- Access through NULL or a pointer to deleted memory faults.
unfoldable pub load : Heap → Ptr → Result ListElement
load h p = if p == null then fault else elim (h p) [ none ↦ fault | some e ↦ ok e ]

-- p->next = q
unfoldable pub set_next : Heap → Ptr → Ptr → Result Heap
set_next h p q = do e ← load h p; ok (write h p (some (record e { next = q })))

abbrev pub is_empty : LinkedList → Bool
is_empty l = l.num_in_list == 0

-- The loop of IsInList; running out of rounds is a fault.
unfoldable pub is_in_loop : ℕ → Heap → Ptr → ℕ → Result Bool
is_in_loop zero h ptr item = fault
is_in_loop (suc n) h ptr item =
    if ptr == null
    then ok false
    else (do e ← load h ptr; if item == e.item then ok true else is_in_loop n h e.next item)

unfoldable pub is_in_list : LinkedList → ℕ → Result Bool
is_in_list l item = is_in_loop (l.num_in_list + 1) l.heap l.first item

-- `new ListElement<T>(item)`, at the address `element`.
unfoldable pub new_element : LinkedList → Ptr → ℕ → LinkedList
new_element l element item = record l {
  heap = write l.heap element (some (record { next = null; item = item }));
}

unfoldable pub link_last : LinkedList → Ptr → Result LinkedList
link_last l element =
    if is_empty l
    then ok (record l { first = element; last = element })
    else (do h ← set_next l.heap l.last element; ok (record l { heap = h; last = element }))

unfoldable pub link_first : LinkedList → Ptr → Result LinkedList
link_first l element =
    if is_empty l
    then ok (record l { first = element; last = element })
    else (do h ← set_next l.heap element l.first; ok (record l { heap = h; first = element }))

-- numInList++
abbrev pub count_one : LinkedList → LinkedList
count_one l = record l { num_in_list = l.num_in_list + 1 }

unfoldable pub append : LinkedList → Ptr → ℕ → Result LinkedList
append l element item = do
  found ← is_in_list (new_element l element item) item
  assert (not found)
  l1 ← link_last (new_element l element item) element
  now_found ← is_in_list (count_one l1) item
  assert now_found
  ok (count_one l1)

unfoldable pub prepend : LinkedList → Ptr → ℕ → Result LinkedList
prepend l element item = do
  found ← is_in_list (new_element l element item) item
  assert (not found)
  l1 ← link_first (new_element l element item) element
  now_found ← is_in_list (count_one l1) item
  assert now_found
  ok (count_one l1)

unfoldable pub front : LinkedList → Result ℕ
front l = do e ← load l.heap l.first; ok e.item

unfoldable pub remove_front : LinkedList → Result (ℕ × LinkedList)
remove_front l = do
  assert (not (is_empty l))
  e ← load l.heap l.first
  let only = l.first == l.last
  ok (
    e.item,
    record {
      heap = write l.heap l.first none;
      first = if only then null else e.next;
      last = if only then null else l.last;
      num_in_list = l.num_in_list - 1;
    },
  )

-- The body of the `if` in the loop of Remove.
unfoldable pub unlink : LinkedList → Ptr → Ptr → Ptr → Result LinkedList
unlink l prev ptr next = do
  h ← set_next l.heap prev next
  ok (record l {
    heap = write h ptr none;
    last = if next == null then prev else l.last;
    num_in_list = l.num_in_list - 1;
  })

-- The loop of Remove, with the ASSERT behind it.
unfoldable pub remove_loop : ℕ → LinkedList → Ptr → Ptr → ℕ → Result LinkedList
remove_loop zero l prev ptr item = fault
remove_loop (suc n) l prev ptr item = do
  assert (not (ptr == null))
  e ← load l.heap ptr
  if item == e.item then unlink l prev ptr e.next else remove_loop n l ptr e.next item

unfoldable pub remove_found : LinkedList → ℕ → Result LinkedList
remove_found l item = do
  e ← load l.heap l.first
  if item == e.item
      then (do (removed, l1) ← remove_front l; assert (item == removed); ok l1)
      else remove_loop (l.num_in_list + 1) l l.first e.next item

unfoldable pub remove : LinkedList → ℕ → Result LinkedList
remove l item = do
  found ← is_in_list l item
  assert found
  l1 ← remove_found l item
  still_found ← is_in_list l1 item
  assert (not still_found)
  ok l1

-- The loop of SanityCheck; the ASSERT in it bounds its rounds.
unfoldable pub sanity_loop : ℕ → LinkedList → ℕ → Ptr → Result ℕ
sanity_loop zero l num_found ptr = fault
sanity_loop (suc n) l num_found ptr = if ptr == l.last then ok num_found else (do
  assert (leb (num_found + 1) l.num_in_list)
  e ← load l.heap ptr
  sanity_loop n l (num_found + 1) e.next)

unfoldable pub sanity_check : LinkedList → Result (Unit {0})
sanity_check l =
    if l.first == null
    then (do assert (l.num_in_list == 0); assert (l.last == null))
    else if l.first == l.last
    then (do assert (l.num_in_list == 1); e ← load l.heap l.last; assert (e.next == null))
    else (do
      num_found ← sanity_loop (l.num_in_list + 1) l 1 l.first
      assert (num_found == l.num_in_list)
      e ← load l.heap l.last
      assert (e.next == null))
