-- ===== src/LinkedList/SelfTest.antt =====
-- Apply, ListIterator and SelfTest of lib/list.h and lib/list.cc.
use nach_os.Base.{
  ℕ, zero, suc, ◌+◌, ◌<◌, ◌≡◌, refl, ap, fun_ext, ◌∙◌, Bool, not, ◌&&◌, List, [], ◌∷◌, Result, ok,
  fault, ◌>>=◌, ◌>>◌, >>=-ok, assert, arith, ◌==◌, ne→==, if◌then◌else◌, if_false, length,
}
use nach_os.LinkedList.{
  Ptr, null, Heap, LinkedList, load, is_empty, is_in_list, append, remove, sanity_check,
}
use nach_os.LinkedList.Cells.{Cells, items, first_of, Chain, load-ok}
use nach_os.LinkedList.Adding.{Represents}

-- `func` may change the state `S` of the program, but not the list.
unfoldable pub apply_loop {ℓ} : {S : Type ℓ} → (ℕ → S → Result S) → ℕ → Heap → Ptr → S → Result S
apply_loop func zero h ptr s = fault
apply_loop func (suc n) h ptr s =
    if ptr == null
    then ok s
    else (do e ← load h ptr; s1 ← func e.item s; apply_loop func n h e.next s1)

unfoldable pub apply {ℓ} : {S : Type ℓ} → (ℕ → S → Result S) → LinkedList → S → Result S
apply func l s = apply_loop func (l.num_in_list + 1) l.heap l.first s

-- One item after the other.
abbrev each {ℓ} : {S : Type ℓ} → (ℕ → S → Result S) → List ℕ → S → Result S
each func [] s = ok s
each func (x ∷ xs) s = func x s >>= each func xs

apply_loop-each {ℓ} :
    {S : Type ℓ} (func : ℕ → S → Result S) (n : ℕ) (h : Heap) (cells : Cells) (s : S)
    → Chain h cells
    → length cells < n
    → apply_loop func n h (first_of cells) s ≡ each func (items cells) s
unfolding apply_loop
apply_loop-each func zero h cells s c less = absurd (omega arith)
apply_loop-each func (suc n) h [] s c less = refl
apply_loop-each func (suc n) h ((a, v) ∷ cells) s (ne, at, out, c) less =
    if_false _ _ (ne→== a null ne)
    ∙ >>=-ok _ (load-ok h a _ ne at)
    ∙ ap (λ next. func v s >>= next)
        (fun_ext λ s1. apply_loop-each func n h cells s1 c (omega arith))

-- Apply calls the function on each item, from the first to the last.
apply-each {ℓ} :
    {S : Type ℓ} (func : ℕ → S → Result S) (l : LinkedList) (cells : Cells) (s : S)
    → Represents l cells
    → apply func l s ≡ each func (items cells) s
unfolding apply
apply-each func l cells s r =
    ap (λ q. apply_loop func (l.num_in_list + 1) l.heap q s) r.first
    ∙ apply_loop-each func (l.num_in_list + 1) l.heap cells s r.chain (omega (arith, r.count))

pub record ListIterator : Type 0 where
  pub current : Ptr

abbrev pub iterator : LinkedList → ListIterator
iterator l = record { current = l.first }

abbrev pub is_done : ListIterator → Bool
is_done i = i.current == null

unfoldable pub item : Heap → ListIterator → Result ℕ
item h i = do assert (not (is_done i)); e ← load h i.current; ok e.item

unfoldable pub next : Heap → ListIterator → Result ListIterator
next h i = do e ← load h i.current; ok (record { current = e.next })

-- The loops of SelfTest, over the addresses that `new` returns and the items.
unfoldable pub append_each : LinkedList → Cells → Result LinkedList
append_each l [] = ok l
append_each l ((a, v) ∷ cells) = do
  l1 ← append l a v
  found ← is_in_list l1 v
  assert found
  assert (not (is_empty l1))
  append_each l1 cells

unfoldable pub remove_each : LinkedList → List ℕ → Result LinkedList
remove_each l [] = ok l
remove_each l (v ∷ values) = do
  l1 ← remove l v
  found ← is_in_list l1 v
  assert (not found)
  remove_each l1 values

unfoldable pub self_test : LinkedList → Cells → Result LinkedList
self_test l cells = do
  sanity_check l
  assert (is_empty l && l.first == null)
  assert (is_done (iterator l))
  l1 ← append_each l cells
  sanity_check l1
  l2 ← remove_each l1 (items cells)
  assert (is_empty l2)
  sanity_check l2
  ok l2
