-- ===== src/LinkedList/Cells.antt =====
-- The elements of the list of lib/list.cc, as the sequence of their addresses and items.
use nach_os.Base.{
  ℕ, zero, suc, ◌+◌, ◌<◌, ◌≡◌, ◌≢◌, refl, Bool, true, false, ◌||◌, Option, none, some, List, [],
  ◌∷◌, ◌++◌, ok, arith, ◌==◌, Bool-cases, inl, inr, contains, length,
}
use nach_os.LinkedList.{Ptr, null, ListElement, Heap, write, load, is_in_loop}

abbrev pub Cells : Type 0
Cells = List (Ptr × ℕ)

abbrev pub items : Cells → List ℕ
items [] = []
items ((a, v) ∷ cells) = v ∷ items cells

abbrev pub has : Cells → Ptr → Bool
has [] p = false
has ((a, v) ∷ cells) p = p == a || has cells p

abbrev pub first_of : Cells → Ptr
first_of [] = null
first_of ((a, v) ∷ cells) = a

abbrev pub last_from : Ptr → Cells → Ptr
last_from a [] = a
last_from a ((b, v) ∷ cells) = last_from b cells

abbrev pub last_of : Cells → Ptr
last_of cells = last_from null cells

abbrev pub element : Ptr → ℕ → ListElement
element p v = record { next = p; item = v }

-- The memory holds the cells, each linked to the one behind it.
abbrev pub Chain : Heap → Cells → Type 0
Chain h [] = Unit {0}
Chain h ((a, v) ∷ cells) =
    (a ≢ null) × (h a ≡ some (element (first_of cells) v)) × (has cells a ≡ false) × Chain h cells

pub load-ok : (h : Heap) (p : Ptr) (e : ListElement) → p ≢ null → h p ≡ some e → load h p ≡ ok e
unfolding load
load-ok h p e ne at = ground arith

-- A chain survives a change of memory elsewhere.
pub Chain-frame :
    (h g : Heap) (cells : Cells)
    → Chain h cells
    → ((a : Ptr) → has cells a ≡ true → g a ≡ h a)
    → Chain g cells
Chain-frame h g [] c same = tt
Chain-frame h g ((a, v) ∷ cells) (ne, at, out, c) same =
    (ne, ground (arith, same a), out, Chain-frame h g cells c λ b i. same b (ground arith))

pub Chain-write :
    (h : Heap) (p : Ptr) (e : Option ListElement) (cells : Cells)
    → Chain h cells
    → has cells p ≡ false
    → Chain (write h p e) cells
unfolding write
Chain-write h p e cells c out = Chain-frame h _ cells c λ a i. ground arith

-- Memory that is not in use is in no chain.
pub has-Chain :
    (h : Heap) (p : Ptr) (cells : Cells) → Chain h cells → h p ≡ none → has cells p ≡ false
has-Chain h p [] c free = refl
has-Chain h p ((a, v) ∷ cells) (ne, at, out, c) free = ground (arith, has-Chain h p cells c free)

pub has-append :
    (cells : Cells) (p : Ptr) (v : ℕ) (a : Ptr)
    → has (cells ++ (p, v) ∷ []) a ≡ (has cells a || a == p)
has-append [] p v a = ground arith
has-append ((b, w) ∷ cells) p v a = ground (arith, has-append cells p v a)

pub items-append :
    (cells : Cells) (p : Ptr) (v : ℕ) → items (cells ++ (p, v) ∷ []) ≡ items cells ++ v ∷ []
items-append [] p v = refl
items-append ((b, w) ∷ cells) p v = rw (items-append cells p v) refl

pub length-append :
    (cells : Cells) (p : Ptr) (v : ℕ) → length (cells ++ (p, v) ∷ []) ≡ length cells + 1
length-append [] p v = refl
length-append (c ∷ cells) p v = omega (arith, length-append cells p v)

pub last_from-append :
    (b : Ptr) (cells : Cells) (p : Ptr) (v : ℕ) → last_from b (cells ++ (p, v) ∷ []) ≡ p
last_from-append b [] p v = refl
last_from-append b ((a, w) ∷ cells) p v = last_from-append a cells p v

-- The loop of IsInList looks for the item among the cells, with a round for each and one more.
pub is_in_loop-ok :
    (n : ℕ) (h : Heap) (cells : Cells) (item : ℕ)
    → Chain h cells
    → length cells < n
    → is_in_loop n h (first_of cells) item ≡ ok (contains (items cells) item)
unfolding is_in_loop
is_in_loop-ok zero h cells item c l = absurd (omega arith)
is_in_loop-ok (suc n) h [] item c l = refl
is_in_loop-ok (suc n) h ((a, v) ∷ cells) item (ne, at, out, c) l =
    let rest = is_in_loop-ok n h cells item c (omega arith) in
    let here = load-ok h a _ ne at in
    elim (Bool-cases (item == v)) [ inl hit ↦ ground arith | inr miss ↦ ground arith ]
