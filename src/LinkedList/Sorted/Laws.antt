-- ===== src/LinkedList/Sorted/Laws.antt =====
-- Insert of lib/list.cc on a list that stands for its cells, and SortedList::SanityCheck.
use Prim.Native.Nat.{Ordering}
use nach_os.Base.{
  ℕ, zero, suc, ◌+◌, ◌<◌, ◌≡◌, ◌≢◌, ◌⊎◌, refl, sym, ◌∙◌, ap, subst, true, false, none, some, List,
  [], ◌∷◌, ◌++◌, Result, ok, abort, fault, ◌>>=◌, >>=-ok, arith, ◌==◌, ==_refl, ne→==, if_true,
  if_false, Bool-cases, inl, inr, contains, Distinct, length,
}
use nach_os.LinkedList.{
  Ptr, null, LinkedList, load, set_next, new_element, link_last, link_first, count_one,
}
use nach_os.LinkedList.Cells.{Cells, items, has, first_of, element, Chain, load-ok}
use nach_os.LinkedList.Adding.{
  Represents, is_in_list-ok, link_last-Represents, link_first-Represents, new_element-Represents,
  new_in_list, out,
}
use nach_os.LinkedList.Sanity.{sanity_check_lem, not_last}
use nach_os.LinkedList.Sorted.{
  is_negative, is_positive, counted, insert_loop, insert_behind, insert_first, insert_in_order,
  insert, order_loop, sorted_sanity_check, place, Sorted,
}
use nach_os.LinkedList.Sorted.Cells.{
  contains-place, Distinct-place, place-Sorted, place_cell, items-place_cell, length-place_cell,
}
use nach_os.LinkedList.Sorted.Inserting.{insert_loop-Placed}

contains_behind : (x : ℕ) (xs : List ℕ) (y : ℕ) → contains xs y ≡ true → contains (x ∷ xs) y ≡ true
contains_behind x xs y there = ground arith

-- What is done with a value instead of returning it.
instead {ℓ κ} :
    {S T : Type ℓ} {U : Type κ} (m : Result S) (f : S → T) (g : T → Result U) (t : T)
    → (m >>= λ s. ok (f s)) ≡ ok t
    → (m >>= λ s. g (f s)) ≡ g t
instead (ok s) f g t e = >>=-ok g e
instead abort f g t e = cc
instead fault f g t e = cc

counted-ok :
    (l : LinkedList) (cells : Cells) (item : ℕ)
    → Represents (count_one l) cells
    → contains (items cells) item ≡ true
    → counted l item ≡ ok (count_one l)
unfolding counted
counted-ok l cells item r there =
    >>=-ok _ (is_in_list-ok (count_one l) cells item r.chain r.first r.count) ∙ rw there refl

module _ (compare : ℕ → ℕ → Ordering) (p : Ptr) (item : ℕ) (pne : p ≢ null) where
  contains-place_cell :
      (cells : Cells) → contains (items (place_cell compare p item cells)) item ≡ true
  contains-place_cell cells =
      rw (items-place_cell compare p item cells, contains-place compare item (items cells) item)
        (ground arith)

  Distinct-place_cell :
      (cells : Cells)
      → Distinct (items cells)
      → contains (items cells) item ≡ false
      → Distinct (items (place_cell compare p item cells))
  Distinct-place_cell cells d fresh =
      rw (items-place_cell compare p item cells) (Distinct-place compare item (items cells) d fresh)

  insert_behind-Represents :
      (l : LinkedList) (a : Ptr) (v : ℕ) (cells : Cells)
      → Represents l ((a, v) ∷ cells)
      → l.heap p ≡ some (element null item)
      → has ((a, v) ∷ cells) p ≡ false
      → contains (items ((a, v) ∷ cells)) item ≡ false
      → is_negative (compare item v) ≡ false
      → (l1 : LinkedList) × (insert_behind compare l p item ≡ ok l1)
        × Represents l1 ((a, v) ∷ place_cell compare p item cells)
  unfolding insert_behind link_last
  insert_behind-Represents l a v cells r new apart fresh behind =
      let nonempty : (l.num_in_list == 0) ≡ false = ground (arith, r.count) in
      let here = ap (λ q. insert_loop compare (l.num_in_list + 1) l q p item) r.first in
      elim (insert_loop-Placed compare p item pne (l.num_in_list + 1) l a v cells r.chain new apart
        (omega (arith, r.count))) [
          | inl (e, ends) ↦
              let (l1, e1, r1) =
                link_last-Represents l ((a, v) ∷ cells) p item r pne new apart fresh in
              let there : contains (items (cells ++ (p, item) ∷ [])) item ≡ true =
                subst (λ cs. contains (items cs) item ≡ true) ends (contains-place_cell cells) in
              let linked : (set_next l.heap l.last p >>= λ h. ok (record l { heap = h; last = p }))
                  ≡ ok l1 =
                sym (if_false _ _ nonempty) ∙ e1 in
              (
                count_one l1,
                >>=-ok _ (here ∙ e)
                    ∙ instead (set_next l.heap l.last p) (λ h. record l { heap = h; last = p })
                        (λ l1. counted l1 item) l1 linked
                    ∙ counted-ok l1 _ item r1 (contains_behind v _ item there),
                rw ends r1,
              )
          | inr (l1, e, x) ↦ (
            l1,
            >>=-ok _ (here ∙ e),
            record {
              chain = x.chain;
              first = x.first ∙ r.first;
              last = x.last ∙ r.last ∙ sym x.at_end;
              count = omega (arith, r.count, x.count, length-place_cell compare p item cells);
              distinct =
                  subst (λ cs. Distinct (items cs)) (if_false _ _ behind)
                    (Distinct-place_cell ((a, v) ∷ cells) r.distinct fresh);
            },
          )
        ]

  insert_in_order-Represents :
      (l : LinkedList) (cells : Cells)
      → Represents l cells
      → l.heap p ≡ some (element null item)
      → has cells p ≡ false
      → contains (items cells) item ≡ false
      → (l1 : LinkedList) × (insert_in_order compare l p item ≡ ok l1)
        × Represents l1 (place_cell compare p item cells)
  unfolding insert_in_order insert_first link_first
  insert_in_order-Represents l [] r new apart fresh =
      let empty : (l.num_in_list == 0) ≡ true = ground (arith, r.count) in
      let r1 : Represents (count_one (record l { first = p; last = p })) ((p, item) ∷ []) = record {
        chain = (pne, new, refl, tt);
        first = refl;
        last = refl;
        count = omega (arith, r.count);
        distinct = (refl, tt);
      } in
      (
        count_one (record l { first = p; last = p }),
        if_true _ _ empty ∙ counted-ok _ _ item r1 (ground arith),
        r1,
      )
  insert_in_order-Represents l ((a, v) ∷ cells) r new apart fresh =
      let nonempty : (l.num_in_list == 0) ≡ false = ground (arith, r.count) in
      let here : load l.heap l.first ≡ ok (element (first_of cells) v) =
        ap (load l.heap) r.first ∙ load-ok l.heap a _ r.chain.0 r.chain.1 in
      elim (Bool-cases (is_negative (compare item v))) [
        | inl before ↦
            let (l1, e, r1) =
              link_first-Represents l ((a, v) ∷ cells) p item r pne new apart fresh in
            (
              count_one l1,
              if_false _ _ nonempty
                  ∙ >>=-ok _ here
                  ∙ if_true _ _ before
                  ∙ instead (set_next l.heap p l.first) (λ h. record l { heap = h; first = p })
                      (λ l1. counted l1 item) l1 (sym (if_false _ _ nonempty) ∙ e)
                  ∙ counted-ok l1 _ item r1 (ground arith),
              rw before r1,
            )
        | inr behind ↦
            let (l1, e, r1) = insert_behind-Represents l a v cells r new apart fresh behind in
            (l1, if_false _ _ nonempty ∙ >>=-ok _ here ∙ if_false _ _ behind ∙ e, rw behind r1)
      ]

module _ (compare : ℕ → ℕ → Ordering) where
  order_loop-ok :
      (n : ℕ) (l : LinkedList) (prev : ℕ) (cells : Cells)
      → Chain l.heap cells
      → Sorted compare (prev ∷ items cells)
      → length cells < n
      → order_loop compare n l prev (first_of cells) ≡ ok tt
  unfolding order_loop
  order_loop-ok zero l prev cells c s less = absurd (omega arith)
  order_loop-ok (suc n) l prev [] c s less = refl
  order_loop-ok (suc n) l prev ((a, v) ∷ cells) (ne, at, out, c) s less =
      let notnull : (a == null) ≡ false = ne→== a null ne in
      rw notnull (
        >>=-ok _ (load-ok l.heap a _ ne at)
        ∙ rw s.0 (order_loop-ok n l v cells c s.1 (omega arith)))

  sorted_sanity_check_lem :
      (l : LinkedList) (cells : Cells)
      → Represents l cells
      → Sorted compare (items cells)
      → sorted_sanity_check compare l ≡ ok tt
  unfolding sorted_sanity_check
  sorted_sanity_check_lem l [] r s =
      let only : (l.first == l.last) ≡ true = rw (r.first, r.last) refl in
      >>=-ok _ (sanity_check_lem l [] r) ∙ if_true _ _ only
  sorted_sanity_check_lem l ((a, v) ∷ []) r s =
      let only : (l.first == l.last) ≡ true = rw (r.first, r.last) (==_refl a) in
      >>=-ok _ (sanity_check_lem l ((a, v) ∷ []) r) ∙ if_true _ _ only
  sorted_sanity_check_lem l ((a, v) ∷ (b, w) ∷ cells) r s =
      let (ne, at, out, c) = r.chain in
      let more : (l.first == l.last) ≡ false = rw (r.first, r.last) (not_last a b w cells out) in
      let here : load l.heap l.first ≡ ok (element b v) =
        ap (load l.heap) r.first ∙ load-ok l.heap a _ ne at in
      >>=-ok _ (sanity_check_lem l ((a, v) ∷ (b, w) ∷ cells) r)
      ∙ if_false _ _ more
      ∙ >>=-ok _ here
      ∙ order_loop-ok (l.num_in_list + 1) l v ((b, w) ∷ cells) c s (omega (arith, r.count))

  -- Insert into a sorted list stops at its first ASSERT if the item is there; else it succeeds, the
  -- item is put before the first that is greater, the list stays sorted, with its first and last
  -- element and their number right, and SanityCheck passes; if `compare` of `y` and `x` is not
  -- positive wherever that of `x` and `y` is not negative, and `new` returns memory not in use.
  pub insert_lem :
      ((x y : ℕ) → is_negative (compare x y) ≡ false → is_positive (compare y x) ≡ false)
      → (l : LinkedList) (cells : Cells) (p : Ptr) (item : ℕ) → Represents l cells
      → Sorted compare (items cells)
      → p ≢ null
      → l.heap p ≡ none
      → (contains (items cells) item ≡ true) × (insert compare l p item ≡ abort)
        ⊎ (l1 : LinkedList) × (cells1 : Cells) × (insert compare l p item ≡ ok l1)
          × Represents l1 cells1
          × (items cells1 ≡ place compare item (items cells))
          × Sorted compare (items cells1)
          × (sorted_sanity_check compare l1 ≡ ok tt)
  unfolding insert
  insert_lem back l cells p item r s pne free =
      let (r0, new) = new_element-Represents l cells r p item pne free in
      let found = new_in_list l cells r p item pne free in
      elim (Bool-cases (contains (items cells) item)) [
        | inl there ↦ inl (there, >>=-ok _ found ∙ rw there refl)
        | inr fresh ↦
            let (l1, e, r1) =
              insert_in_order-Represents compare p item pne (new_element l p item) cells r0 new
                (out l cells r p item pne free) fresh in
            let same = items-place_cell compare p item cells in
            let s1 : Sorted compare (items (place_cell compare p item cells)) =
              rw same (place-Sorted compare back item (items cells) s).0 in
            inr (
              l1,
              place_cell compare p item cells,
              >>=-ok _ found ∙ rw fresh e,
              r1,
              same,
              s1,
              sorted_sanity_check_lem l1 (place_cell compare p item cells) r1 s1,
            )
      ]
