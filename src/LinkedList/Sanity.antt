-- ===== src/LinkedList/Sanity.antt =====
-- SanityCheck of lib/list.cc passes on a list that stands for its cells.
use nach_os.Base.{
  ℕ, zero, suc, ◌+◌, ◌<◌, ◌≡◌, refl, sym, ◌∙◌, ap, subst, true, false, [], ◌∷◌, ok, ◌>>=◌, ◌>>◌,
  >>=-ok, assert, arith, ◌==◌, ==_refl, ne→==, leb, length,
}
use nach_os.LinkedList.{Ptr, null, Heap, LinkedList, load, sanity_loop, sanity_check}
use nach_os.LinkedList.Cells.{Cells, has, last_from, element, Chain, load-ok}
use nach_os.LinkedList.Adding.{Represents}
use nach_os.LinkedList.Removing.{has-last_from}

last_cell :
    (h : Heap) (a : Ptr) (v : ℕ) (cells : Cells)
    → Chain h ((a, v) ∷ cells)
    → (w : ℕ) × (load h (last_from a cells) ≡ ok (element null w))
last_cell h a v [] (ne, at, out, c) = (v, load-ok h a _ ne at)
last_cell h a v ((b, w) ∷ cells) (ne, at, out, c) = last_cell h b w cells c

pub not_last :
    (a b : Ptr) (w : ℕ) (cells : Cells)
    → has ((b, w) ∷ cells) a ≡ false
    → (a == last_from b cells) ≡ false
not_last a b w cells out = ne→== a _ λ same.
    let there = subst (λ i. has ((b, w) ∷ cells) i ≡ true) (sym same) (has-last_from b w cells) in
    cc

sanity_loop-ok :
    (n : ℕ) (l : LinkedList) (num_found : ℕ) (a : Ptr) (v : ℕ) (cells : Cells)
    → Chain l.heap ((a, v) ∷ cells)
    → l.last ≡ last_from a cells
    → num_found + length cells ≡ l.num_in_list
    → length cells < n
    → sanity_loop n l num_found a ≡ ok l.num_in_list
unfolding sanity_loop
sanity_loop-ok zero l num_found a v cells c last count less = absurd (omega arith)
sanity_loop-ok (suc n) l num_found a v [] c last count less =
    rw (last, ==_refl a) (ap ok (omega (arith, count)))
sanity_loop-ok (suc n) l num_found a v ((b, w) ∷ cells) (ne, at, out, c) last count less =
    let other : (a == l.last) ≡ false = rw last (not_last a b w cells out) in
    let bounded : leb (num_found + 1) l.num_in_list ≡ true = ground (arith, count) in
    let rest =
      sanity_loop-ok n l (num_found + 1) b w cells c last (omega (arith, count)) (omega arith) in
    rw (other, bounded) (>>=-ok _ (load-ok l.heap a _ ne at) ∙ rest)

pub sanity_check_lem :
    (l : LinkedList) (cells : Cells) → Represents l cells → sanity_check l ≡ ok tt
unfolding sanity_check
sanity_check_lem l [] r = rw (r.first, r.last, r.count) refl
sanity_check_lem l ((a, v) ∷ []) r =
    let (ne, at, out, c) = r.chain in
    let notnull : (l.first == null) ≡ false = rw r.first (ne→== a null ne) in
    let only : (l.first == l.last) ≡ true = rw (r.first, r.last) (==_refl a) in
    let here : load l.heap l.last ≡ ok (element null v) = rw r.last (load-ok l.heap a _ ne at) in
    rw (notnull, only, r.count) (>>=-ok _ here)
sanity_check_lem l ((a, v) ∷ (b, w) ∷ cells) r =
    let (ne, at, out, c) = r.chain in
    let notnull : (l.first == null) ≡ false = rw r.first (ne→== a null ne) in
    let more : (l.first == l.last) ≡ false = rw (r.first, r.last) (not_last a b w cells out) in
    let (x, found) = last_cell l.heap b w cells c in
    let end : load l.heap l.last ≡ ok (element null x) = rw r.last found in
    let counted =
      sanity_loop-ok (l.num_in_list + 1) l 1 a v ((b, w) ∷ cells) r.chain r.last
        (omega (arith, r.count)) (omega (arith, r.count)) in
    rw (notnull, more)
      (ap
          (λ q. sanity_loop (l.num_in_list + 1) l 1 q >>= λ m.
            assert (m == l.num_in_list) >> (load l.heap l.last >>= λ e. assert (e.next == null)))
          r.first
        ∙ >>=-ok _ counted
        ∙ rw (==_refl l.num_in_list) (>>=-ok _ end))
