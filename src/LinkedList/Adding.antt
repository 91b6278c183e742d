-- ===== src/LinkedList/Adding.antt =====
-- Append and Prepend of lib/list.cc, on the cells of the list.
use nach_os.Base.{
  ℕ, ◌+◌, ◌≡◌, ◌≢◌, refl, sym, ◌∙◌, ap, subst, true, false, none, some, List, [], ◌∷◌, ◌++◌, Result,
  ok, abort, fault, ◌>>=◌, >>=-ok, assert, arith, ◌==◌, Bool-cases, inl, inr, contains,
  contains-append, Distinct, Distinct-append, length,
}
use nach_os.LinkedList.{
  Ptr, null, ListElement, Heap, LinkedList, write, set_next, is_in_list, new_element, link_last,
  link_first, count_one, append, prepend,
}
use nach_os.LinkedList.Sequence
use nach_os.LinkedList.Cells.{
  Cells, items, has, first_of, last_from, last_of, element, Chain, load-ok, Chain-write, has-Chain,
  has-append, items-append, length-append, last_from-append, is_in_loop-ok,
}

-- The list stands for the cells, whose items all differ.
pub record Represents (l : LinkedList) (cells : Cells) : Type 0 where
  pub chain : Chain l.heap cells
  pub first : l.first ≡ first_of cells
  pub last : l.last ≡ last_of cells
  pub count : l.num_in_list ≡ length cells
  pub distinct : Distinct (items cells)

pub is_in_list-ok :
    (l : LinkedList) (cells : Cells) (item : ℕ)
    → Chain l.heap cells
    → l.first ≡ first_of cells
    → l.num_in_list ≡ length cells
    → is_in_list l item ≡ ok (contains (items cells) item)
unfolding is_in_list
is_in_list-ok l cells item c first count =
    rw first (is_in_loop-ok (l.num_in_list + 1) l.heap cells item c (omega (arith, count)))

pub set_next-ok :
    (h : Heap) (p q : Ptr) (e : ListElement)
    → p ≢ null
    → h p ≡ some e
    → set_next h p q ≡ ok (write h p (some (record e { next = q })))
unfolding set_next
set_next-ok h p q e ne at = >>=-ok _ (load-ok h p e ne at)

-- The last cell gets a new cell behind it.
link-Chain :
    (h : Heap) (a : Ptr) (v : ℕ) (cells : Cells) (p : Ptr) (item : ℕ)
    → Chain h ((a, v) ∷ cells)
    → p ≢ null
    → h p ≡ some (element null item)
    → has ((a, v) ∷ cells) p ≡ false
    → (g : Heap) × (set_next h (last_from a cells) p ≡ ok g)
      × Chain g ((a, v) ∷ cells ++ (p, item) ∷ [])
      × ((b : Ptr) → has ((a, v) ∷ cells) b ≡ false → g b ≡ h b)
unfolding write
link-Chain h a v [] p item (ne, at, out, c) pne new apart = (
  write h a (some (element p v)),
  set_next-ok h a p _ ne at,
  (ne, ground arith, ground arith, (pne, ground arith, refl, tt)),
  λ b o. ground arith,
)
link-Chain h a v ((b, w) ∷ cells) p item (ne, at, out, c) pne new apart =
    let (g, e, c', same) = link-Chain h b w cells p item c pne new (ground arith) in
    (
      g,
      e,
      (ne, same a out ∙ at, ground (arith, has-append cells p item a), c'),
      λ i o. same i (ground arith),
    )

-- The new element, which is in no cell, is put behind the last cell.
pub link_last-Represents :
    (l : LinkedList) (cells : Cells) (p : Ptr) (item : ℕ)
    → Represents l cells
    → p ≢ null
    → l.heap p ≡ some (element null item)
    → has cells p ≡ false
    → contains (items cells) item ≡ false
    → (l1 : LinkedList) × (link_last l p ≡ ok l1)
      × Represents (count_one l1) (cells ++ (p, item) ∷ [])
unfolding link_last
link_last-Represents l [] p item r pne new out fresh = (
  record l { first = p; last = p },
  rw r.count refl,
  record {
    chain = (pne, new, refl, tt);
    first = refl;
    last = refl;
    count = omega (arith, r.count);
    distinct = (refl, tt);
  },
)
link_last-Represents l ((a, v) ∷ cells) p item r pne new out fresh =
    let nonempty : (l.num_in_list == 0) ≡ false = ground (arith, r.count) in
    let (g, e, c, same) = link-Chain l.heap a v cells p item r.chain pne new out in
    (
      record l { heap = g; last = p },
      rw (nonempty, r.last) (>>=-ok _ e),
      record {
        chain = c;
        first = r.first;
        last = sym (last_from-append a cells p item);
        count = omega (arith, r.count, length-append cells p item);
        distinct =
            subst Distinct (sym (items-append ((a, v) ∷ cells) p item))
              (Distinct-append (items ((a, v) ∷ cells)) item r.distinct fresh);
      },
    )

-- The new element is put before the first cell.
pub link_first-Represents :
    (l : LinkedList) (cells : Cells) (p : Ptr) (item : ℕ)
    → Represents l cells
    → p ≢ null
    → l.heap p ≡ some (element null item)
    → has cells p ≡ false
    → contains (items cells) item ≡ false
    → (l1 : LinkedList) × (link_first l p ≡ ok l1) × Represents (count_one l1) ((p, item) ∷ cells)
unfolding link_first write
link_first-Represents l [] p item r pne new out fresh = (
  record l { first = p; last = p },
  rw r.count refl,
  record {
    chain = (pne, new, refl, tt);
    first = refl;
    last = refl;
    count = omega (arith, r.count);
    distinct = (refl, tt);
  },
)
link_first-Represents l ((a, v) ∷ cells) p item r pne new out fresh =
    let nonempty : (l.num_in_list == 0) ≡ false = ground (arith, r.count) in
    (
      record l { heap = write l.heap p (some (element l.first item)); first = p },
      rw nonempty (>>=-ok _ (set_next-ok l.heap p l.first _ pne new)),
      record {
        chain = (
          pne,
          rw r.first (ground arith),
          out,
          Chain-write l.heap p (some (element l.first item)) ((a, v) ∷ cells) r.chain out,
        );
        first = refl;
        last = r.last;
        count = omega (arith, r.count);
        distinct = (fresh, r.distinct);
      },
    )

-- What an operation on the sequence promises of the one on the list in memory.
abbrev pub Matches : Result LinkedList → Result (List ℕ) → Type 0
Matches m (ok xs) =
    (l : LinkedList) × (cells : Cells) × (m ≡ ok l) × Represents l cells × (items cells ≡ xs)
Matches m abort = m ≡ abort
Matches m fault = m ≡ fault

module _ (l : LinkedList) (cells : Cells) (r : Represents l cells) (p : Ptr) (item : ℕ)
    (pne : p ≢ null) (free : l.heap p ≡ none) where
  pub out : has cells p ≡ false
  out = has-Chain l.heap p cells r.chain free

  pub new_element-Represents :
      Represents (new_element l p item) cells
      × ((new_element l p item).heap p ≡ some (element null item))
  unfolding new_element write
  new_element-Represents = (
    record {
      chain = Chain-write l.heap p (some (element null item)) cells r.chain out;
      first = r.first;
      last = r.last;
      count = r.count;
      distinct = r.distinct;
    },
    ground arith,
  )

  pub new_in_list : is_in_list (new_element l p item) item ≡ ok (contains (items cells) item)
  new_in_list =
      let r0 = new_element-Represents.0 in
      is_in_list-ok (new_element l p item) cells item r0.chain r0.first r0.count

  pub append_lem : Matches (append l p item) (Sequence.append (items cells) item)
  unfolding append Sequence.append
  append_lem = elim (Bool-cases (contains (items cells) item)) [
    | inl there ↦ rw (there, new_in_list, there) refl
    | inr fresh ↦
        let (r0, new) = new_element-Represents in
        let (l1, e, r1) =
          link_last-Represents (new_element l p item) cells p item r0 pne new out fresh in
        let found = is_in_list-ok (count_one l1) _ item r1.chain r1.first r1.count in
        let there : contains (items (cells ++ (p, item) ∷ [])) item ≡ true =
          rw (items-append cells p item, contains-append) (ground arith) in
        rw (fresh, new_in_list, fresh)
          (
            count_one l1,
            cells ++ (p, item) ∷ [],
            >>=-ok _ e ∙ >>=-ok _ found ∙ ap (λ b. assert b >>= λ _. ok (count_one l1)) there,
            r1,
            items-append cells p item,
          )
  ]

  pub prepend_lem : Matches (prepend l p item) (Sequence.prepend (items cells) item)
  unfolding prepend Sequence.prepend
  prepend_lem = elim (Bool-cases (contains (items cells) item)) [
    | inl there ↦ rw (there, new_in_list, there) refl
    | inr fresh ↦
        let (r0, new) = new_element-Represents in
        let (l1, e, r1) =
          link_first-Represents (new_element l p item) cells p item r0 pne new out fresh in
        let found =
          is_in_list-ok (count_one l1) ((p, item) ∷ cells) item r1.chain r1.first r1.count in
        let there : contains (item ∷ items cells) item ≡ true = ground arith in
        rw (fresh, new_in_list, fresh)
          (
            count_one l1,
            (p, item) ∷ cells,
            >>=-ok _ e ∙ >>=-ok _ found ∙ ap (λ b. assert b >>= λ _. ok (count_one l1)) there,
            r1,
            refl,
          )
  ]
