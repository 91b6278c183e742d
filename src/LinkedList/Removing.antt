-- ===== src/LinkedList/Removing.antt =====
-- RemoveFront and Remove of lib/list.cc, on the cells of the list.
use nach_os.Base.{
  ℕ, zero, suc, ◌+◌, ◌-◌, ◌<◌, ◌≡◌, refl, sym, ◌∙◌, ap, subst, true, false, not, none, some, List,
  [], ◌∷◌, Result, ok, abort, fault, ◌>>=◌, >>=-ok, assert, arith, ◌==◌, ==_refl, ne→==,
  if◌then◌else◌, if_false, Bool-cases, inl, inr, contains, length,
}
use nach_os.LinkedList.{
  Ptr, null, Heap, LinkedList, write, load, remove_front, unlink, remove_loop, remove_found, remove,
}
use nach_os.LinkedList.Sequence
use nach_os.LinkedList.Cells.{
  Cells, items, has, first_of, last_from, element, Chain, load-ok, Chain-write,
}
use nach_os.LinkedList.Adding.{Represents, Matches, is_in_list-ok, set_next-ok}
use nach_os.LinkedList.Erasing.{
  erase_cells, items-erase_cells, has-erase_cells, length-erase_cells, erase-Distinct,
}

pub has-last_from :
    (b : Ptr) (w : ℕ) (cells : Cells) → has ((b, w) ∷ cells) (last_from b cells) ≡ true
has-last_from b w [] = ground arith
has-last_from b w ((c, x) ∷ cells) = ground (arith, has-last_from c x cells)

-- The list after the loop of Remove, with the cell `(a, v)` before those it has looked at.
record Unlinked (l : LinkedList) (a : Ptr) (v : ℕ) (cells : Cells) (item : ℕ) (l1 : LinkedList)
    : Type 0 where
  pub chain : Chain l1.heap ((a, v) ∷ erase_cells cells item)
  pub first : l1.first ≡ l.first
  pub last : l1.last ≡ last_from a (erase_cells cells item)
  pub count : l1.num_in_list ≡ l.num_in_list - 1
  pub same : (b : Ptr) → has ((a, v) ∷ cells) b ≡ false → l1.heap b ≡ l.heap b

-- The last element is now `a`, if the removed one was the last.
new_last :
    (last : Ptr) (h : Heap) (a b : Ptr) (w : ℕ) (cells : Cells)
    → Chain h cells
    → last ≡ last_from a ((b, w) ∷ cells)
    → (if first_of cells == null then a else last) ≡ last_from a cells
new_last last h a b w [] c e = refl
new_last last h a b w ((c, x) ∷ cells) (ne, at, out, c') e = if_false a last (ne→== c null ne) ∙ e

unlink-Unlinked :
    (l : LinkedList) (a : Ptr) (v : ℕ) (b : Ptr) (w : ℕ) (cells : Cells) (item : ℕ)
    → Chain l.heap ((a, v) ∷ (b, w) ∷ cells)
    → l.last ≡ last_from a ((b, w) ∷ cells)
    → (w == item) ≡ true
    → (l1 : LinkedList) × (unlink l a b (first_of cells) ≡ ok l1)
      × Unlinked l a v ((b, w) ∷ cells) item l1
unfolding unlink write
unlink-Unlinked l a v b w cells item (ane, ahere, aout, (bne, bhere, bout, c)) last hit =
    let e = set_next-ok l.heap a (first_of cells) _ ane ahere in
    let aout' : has cells a ≡ false = ground arith in
    let g = write l.heap a (some (element (first_of cells) v)) in
    (
      record l {
        heap = write g b none;
        last = if first_of cells == null then a else l.last;
        num_in_list = l.num_in_list - 1;
      },
      >>=-ok _ e,
      record {
        chain = rw hit (
          ane,
          ground arith,
          aout',
          Chain-write g b none cells (Chain-write l.heap a _ cells c aout') bout,
        );
        first = refl;
        last = rw hit (new_last l.last l.heap a b w cells c last);
        count = refl;
        same = λ i o. ground arith;
      },
    )

remove_loop-Unlinked :
    (n : ℕ) (l : LinkedList) (a : Ptr) (v : ℕ) (cells : Cells) (item : ℕ)
    → Chain l.heap ((a, v) ∷ cells)
    → l.last ≡ last_from a cells
    → contains (items cells) item ≡ true
    → length cells < n
    → (l1 : LinkedList) × (remove_loop n l a (first_of cells) item ≡ ok l1)
      × Unlinked l a v cells item l1
unfolding remove_loop
remove_loop-Unlinked zero l a v cells item c last h less = absurd (omega arith)
remove_loop-Unlinked (suc n) l a v [] item c last h less = cc
remove_loop-Unlinked (suc n) l a v ((b, w) ∷ cells) item (ane, ahere, aout, c) last h less =
    let there = load-ok l.heap b _ c.0 c.1 in
    let notnull : (b == null) ≡ false = ground (arith, c.0) in
    elim (Bool-cases (w == item)) [
      | inl hit ↦
          let (l1, e, u) = unlink-Unlinked l a v b w cells item (ane, ahere, aout, c) last hit in
          let hit' : (item == w) ≡ true = ground arith in
          (l1, rw notnull (>>=-ok _ there ∙ rw hit' e), u)
      | inr miss ↦
          let (l1, e, u) =
            remove_loop-Unlinked n l b w cells item c last (ground arith) (omega arith) in
          let miss' : (item == w) ≡ false = ground arith in
          (
            l1,
            rw notnull (>>=-ok _ there ∙ rw miss' e),
            record {
              chain = rw miss (
                ane,
                u.same a aout ∙ ahere,
                ground (arith, has-erase_cells cells item a),
                u.chain,
              );
              first = u.first;
              last = rw miss u.last;
              count = u.count;
              same = λ i o. u.same i (ground arith);
            },
          )
    ]

-- The first element is taken off.
pub remove_front-Represents :
    (l : LinkedList) (a : Ptr) (v : ℕ) (cells : Cells)
    → Represents l ((a, v) ∷ cells)
    → (l1 : LinkedList) × (remove_front l ≡ ok (v, l1)) × Represents l1 cells
unfolding remove_front
remove_front-Represents l a v [] r =
    let here = load-ok l.heap a _ r.chain.0 r.chain.1 in
    let nonempty : (l.num_in_list == 0) ≡ false = ground (arith, r.count) in
    let only : (a == a) ≡ true = ==_refl a in
    (
      record { heap = write l.heap a none; first = null; last = null; num_in_list = 0 },
      rw (r.first, r.last, r.count) (>>=-ok _ here ∙ rw only refl),
      record { chain = tt; first = refl; last = refl; count = refl; distinct = tt },
    )
remove_front-Represents l a v ((b, w) ∷ cells) r =
    let (ane, ahere, aout, c) = r.chain in
    let here = load-ok l.heap a _ ane ahere in
    let nonempty : (l.num_in_list == 0) ≡ false = ground (arith, r.count) in
    let more : (a == last_from b cells) ≡ false = ne→== a _ λ same.
      let there = subst (λ i. has ((b, w) ∷ cells) i ≡ true) (sym same) (has-last_from b w cells) in
      cc in
    (
      record {
        heap = write l.heap a none;
        first = b;
        last = last_from b cells;
        num_in_list = l.num_in_list - 1;
      },
      rw (nonempty, r.first, r.last) (>>=-ok _ here ∙ rw more refl),
      record {
        chain = Chain-write l.heap a none ((b, w) ∷ cells) c aout;
        first = refl;
        last = refl;
        count = omega (arith, r.count);
        distinct = r.distinct.1;
      },
    )

remove_found-Represents :
    (l : LinkedList) (cells : Cells) (item : ℕ)
    → Represents l cells
    → contains (items cells) item ≡ true
    → (l1 : LinkedList) × (remove_found l item ≡ ok l1) × Represents l1 (erase_cells cells item)
unfolding remove_found
remove_found-Represents l [] item r h = cc
remove_found-Represents l ((a, v) ∷ cells) item r h =
    let here = load-ok l.heap a _ r.chain.0 r.chain.1 in
    let here' : load l.heap l.first ≡ ok (element (first_of cells) v) = rw r.first here in
    elim (Bool-cases (v == item)) [
      | inl hit ↦
          let (l1, e, r1) = remove_front-Represents l a v cells r in
          let hit' : (item == v) ≡ true = ground arith in
          (l1, >>=-ok _ here' ∙ rw hit' (>>=-ok _ e ∙ rw hit' refl), rw hit r1)
      | inr miss ↦
          let (l1, e, u) =
            remove_loop-Unlinked (l.num_in_list + 1) l a v cells item r.chain r.last (ground arith)
              (omega (arith, r.count)) in
          let miss' : (item == v) ≡ false = ground arith in
          let left = length-erase_cells cells item (ground arith) in
          let (d, gone, sub) = erase-Distinct (items cells) item r.distinct.1 in
          (
            l1,
            >>=-ok _ here'
                ∙ rw miss' (
                    ap (λ q. remove_loop (l.num_in_list + 1) l q (first_of cells) item) r.first
                    ∙ e),
            rw miss (record {
              chain = u.chain;
              first = u.first ∙ r.first;
              last = u.last;
              count = omega (arith, r.count, u.count);
              distinct = rw (items-erase_cells cells item) (sub v r.distinct.0, d);
            }),
          )
    ]

module _ (l : LinkedList) (cells : Cells) (r : Represents l cells) where
  pub remove_lem : (item : ℕ) → Matches (remove l item) (Sequence.remove (items cells) item)
  unfolding remove Sequence.remove
  remove_lem item =
      let found = is_in_list-ok l cells item r.chain r.first r.count in
      elim (Bool-cases (contains (items cells) item)) [
        | inl there ↦
            let (l1, e, r1) = remove_found-Represents l cells item r there in
            let left = is_in_list-ok l1 (erase_cells cells item) item r1.chain r1.first r1.count in
            let gone : contains (items (erase_cells cells item)) item ≡ false =
              rw (items-erase_cells cells item) (erase-Distinct (items cells) item r.distinct).1 in
            rw (there, found, there)
              (
                l1,
                erase_cells cells item,
                >>=-ok _ e ∙ >>=-ok _ left ∙ ap (λ b. assert (not b) >>= λ _. ok l1) gone,
                r1,
                items-erase_cells cells item,
              )
        | inr absent ↦ rw (absent, found, absent) refl
      ]

-- The same for an operation that also returns an item.
abbrev pub MatchesItem : Result (ℕ × LinkedList) → Result (ℕ × List ℕ) → Type 0
MatchesItem m (ok (item, xs)) =
    (l : LinkedList) × (cells : Cells) × (m ≡ ok (item, l))
    × Represents l cells
    × (items cells ≡ xs)
MatchesItem m abort = m ≡ abort
MatchesItem m fault = m ≡ fault

pub remove_front_lem :
    (l : LinkedList) (cells : Cells)
    → Represents l cells
    → MatchesItem (remove_front l) (Sequence.remove_front (items cells))
unfolding Sequence.remove_front remove_front
remove_front_lem l [] r = rw r.count refl
remove_front_lem l ((a, v) ∷ cells) r =
    let (l1, e, r1) = remove_front-Represents l a v cells r in (l1, cells, e, r1, refl)
