-- ===== src/LinkedList/Sorted/Inserting.antt =====
-- Insert of lib/list.cc, on the cells of the list.
use Prim.Native.Nat.{Ordering}
use nach_os.Base.{
  ℕ, zero, suc, ◌+◌, ◌<◌, ◌≡◌, ◌≢◌, refl, ◌∙◌, ◌⊎◌, true, false, some, [], ◌∷◌, ◌++◌, ok, >>=-ok,
  arith, ◌==◌, ne→==, Bool-cases, inl, inr, length,
}
use nach_os.LinkedList.{Ptr, null, LinkedList, write, count_one}
use nach_os.LinkedList.Cells.{Cells, has, first_of, last_from, element, Chain, load-ok, Chain-write}
use nach_os.LinkedList.Adding.{set_next-ok}
use nach_os.LinkedList.Sorted.{is_negative, link_between, insert_loop}
use nach_os.LinkedList.Sorted.Cells.{place_cell, has-place_cell_behind}

-- A cell is linked in behind the cell `(a, v)`.
link_between-ok :
    (l : LinkedList) (a : Ptr) (v : ℕ) (cells : Cells) (p : Ptr) (item : ℕ)
    → Chain l.heap ((a, v) ∷ cells)
    → p ≢ null
    → l.heap p ≡ some (element null item)
    → has ((a, v) ∷ cells) p ≡ false
    → (l1 : LinkedList) × (link_between l a p (first_of cells) ≡ ok l1)
      × Chain l1.heap ((a, v) ∷ (p, item) ∷ cells)
      × (l1.first ≡ l.first)
      × (l1.last ≡ l.last)
      × (l1.num_in_list ≡ l.num_in_list + 1)
      × ((b : Ptr) → has ((a, v) ∷ cells) b ≡ false → b ≢ p → l1.heap b ≡ l.heap b)
unfolding link_between write
link_between-ok l a v cells p item (ane, ahere, aout, c) pne new out =
    let h = write l.heap p (some (element (first_of cells) item)) in
    let e = set_next-ok l.heap p (first_of cells) _ pne new in
    let aout' : has cells p ≡ false = ground arith in
    let here : h a ≡ some (element (first_of cells) v) = ground arith in
    let e' = set_next-ok h a p _ ane here in
    let apart : (p == a) ≡ false = ground arith in
    (
      count_one (record l { heap = write h a (some (element p v)) }),
      >>=-ok _ e ∙ >>=-ok _ e',
      (
        ane,
        ground arith,
        ground arith,
        (
          pne,
          ground arith,
          aout',
          Chain-write h a _ cells (Chain-write l.heap p _ cells c aout') aout,
        ),
      ),
      refl,
      refl,
      refl,
      λ b o ne. ground arith,
    )

module _ (compare : ℕ → ℕ → Ordering) (p : Ptr) (item : ℕ) (pne : p ≢ null) where
  -- The list after a loop that has found the place, between the cell `(a, v)` and the last.
  pub record Placed (l : LinkedList) (a : Ptr) (v : ℕ) (cells : Cells) (l1 : LinkedList)
      : Type 0 where
    pub chain : Chain l1.heap ((a, v) ∷ place_cell compare p item cells)
    pub first : l1.first ≡ l.first
    pub last : l1.last ≡ l.last
    pub count : l1.num_in_list ≡ l.num_in_list + 1
    pub at_end : last_from a (place_cell compare p item cells) ≡ last_from a cells
    pub same : (b : Ptr) → has ((a, v) ∷ cells) b ≡ false → b ≢ p → l1.heap b ≡ l.heap b

  -- The loop ends at the last cell, or has found the place.
  pub insert_loop-Placed :
      (n : ℕ) (l : LinkedList) (a : Ptr) (v : ℕ) (cells : Cells)
      → Chain l.heap ((a, v) ∷ cells)
      → l.heap p ≡ some (element null item)
      → has ((a, v) ∷ cells) p ≡ false
      → length cells < n
      → (insert_loop compare n l a p item ≡ ok (false, l))
          × (place_cell compare p item cells ≡ cells ++ (p, item) ∷ [])
        ⊎ (l1 : LinkedList) × (insert_loop compare n l a p item ≡ ok (true, l1))
          × Placed l a v cells l1
  unfolding insert_loop
  insert_loop-Placed zero l a v cells c new out less = absurd (omega arith)
  insert_loop-Placed (suc n) l a v [] (ane, ahere, aout, c) new out less =
      inl (>>=-ok _ (load-ok l.heap a _ ane ahere), refl)
  insert_loop-Placed (suc n) l a v ((b, w) ∷ cells) (ane, ahere, aout, c) new out less =
      let here = load-ok l.heap a _ ane ahere in
      let there = load-ok l.heap b _ c.0 c.1 in
      let notnull : (b == null) ≡ false = ne→== b null c.0 in
      let out' : has ((b, w) ∷ cells) p ≡ false = ground arith in
      elim (Bool-cases (is_negative (compare item w))) [
        | inl before ↦
            let (l1, e, c1, f1, la1, n1, same) =
              link_between-ok l a v ((b, w) ∷ cells) p item (ane, ahere, aout, c) pne new out in
            inr (
              l1,
              >>=-ok _ here ∙ rw notnull (>>=-ok _ there ∙ rw before (>>=-ok _ e)),
              record {
                chain = rw before c1;
                first = f1;
                last = la1;
                count = n1;
                at_end = rw before refl;
                same = same;
              },
            )
        | inr behind ↦
            let a_ne_p : a ≢ p = λ q. ground arith in
            let start : insert_loop compare (suc n) l a p item ≡ insert_loop compare n l b p item =
              >>=-ok _ here ∙ rw notnull (>>=-ok _ there ∙ rw behind refl) in
            elim (insert_loop-Placed n l b w cells c new out' (omega arith)) [
              | inl (e, ends) ↦ inl (start ∙ e, rw (behind, ends) refl)
              | inr (l1, e, x) ↦ inr (
                l1,
                start ∙ e,
                record {
                  chain = rw behind (
                    ane,
                    x.same a aout a_ne_p ∙ ahere,
                    has-place_cell_behind compare p item cells a b w aout a_ne_p,
                    x.chain,
                  );
                  first = x.first;
                  last = x.last;
                  count = x.count;
                  at_end = rw behind x.at_end;
                  same = λ i o ne. x.same i (ground arith) ne;
                },
              )
            ]
      ]
