-- ===== src/LinkedList/Runs.antt =====
-- Any client of the list of lib/list.cc sees the sequence of its items.
use nach_os.Base.{
  ℕ, ◌≡◌, ◌≢◌, refl, ◌∙◌, ap, Bool, none, List, [], ◌∷◌, Result, ok, abort, fault, ◌>>=◌, ◌>>◌,
  >>=-ok, contains,
}
use nach_os.LinkedList.{
  Ptr, null, Heap, LinkedList, is_in_list, append, prepend, load, front, remove_front, remove,
  sanity_check, new_list,
}
use nach_os.LinkedList.Sequence
use nach_os.LinkedList.Cells.{Cells, items, load-ok}
use nach_os.LinkedList.Adding.{Represents, Matches, is_in_list-ok, append_lem, prepend_lem}
use nach_os.LinkedList.Removing.{remove_lem, MatchesItem, remove_front_lem}
use nach_os.LinkedList.Sanity.{sanity_check_lem}

-- A call of the list. The address is the one that `new` returns in it.
pub data Request : Type 0 where
  do_append : Ptr → ℕ → Request
  do_prepend : Ptr → ℕ → Request
  do_front : Request
  do_remove_front : Request
  do_remove : ℕ → Request
  do_is_in_list : ℕ → Request
  do_sanity_check : Request

pub data Answer : Type 0 where
  done : Answer
  gives : ℕ → Answer
  says : Bool → Answer

unfoldable pub serve : Request → LinkedList → Result (Answer × LinkedList)
serve (do_append p item) l = do l1 ← append l p item; ok (done, l1)
serve (do_prepend p item) l = do l1 ← prepend l p item; ok (done, l1)
serve do_front l = do item ← front l; ok (gives item, l)
serve do_remove_front l = do (item, l1) ← remove_front l; ok (gives item, l1)
serve (do_remove item) l = do l1 ← remove l item; ok (done, l1)
serve (do_is_in_list item) l = do b ← is_in_list l item; ok (says b, l)
serve do_sanity_check l = do sanity_check l; ok (done, l)

unfoldable pub serve_sequence : Request → List ℕ → Result (Answer × List ℕ)
serve_sequence (do_append p item) xs = do ys ← Sequence.append xs item; ok (done, ys)
serve_sequence (do_prepend p item) xs = do ys ← Sequence.prepend xs item; ok (done, ys)
serve_sequence do_front xs = do item ← Sequence.front xs; ok (gives item, xs)
serve_sequence do_remove_front xs = do (item, ys) ← Sequence.remove_front xs; ok (gives item, ys)
serve_sequence (do_remove item) xs = do ys ← Sequence.remove xs item; ok (done, ys)
serve_sequence (do_is_in_list item) xs = ok (says (contains xs item), xs)
serve_sequence do_sanity_check xs = ok (done, xs)

-- The answers to one call after the other.
unfoldable pub run : List Request → LinkedList → Result (List Answer)
run [] l = ok []
run (q ∷ requests) l = do (x, l1) ← serve q l; xs ← run requests l1; ok (x ∷ xs)

unfoldable pub run_sequence : List Request → List ℕ → Result (List Answer)
run_sequence [] xs = ok []
run_sequence (q ∷ requests) xs = do
  (x, ys) ← serve_sequence q xs
  answers ← run_sequence requests ys
  ok (x ∷ answers)

-- `new` returns memory that is not in use.
abbrev pub Unused : Request → LinkedList → Type 0
Unused (do_append p item) l = (p ≢ null) × (l.heap p ≡ none)
Unused (do_prepend p item) l = (p ≢ null) × (l.heap p ≡ none)
Unused _ l = Unit {0}

pub data Fresh : List Request → LinkedList → Type 0 where
  fresh_end : {l : LinkedList} → Fresh [] l
  fresh_next :
      {q : Request} {requests : List Request} {l : LinkedList}
      → Unused q l
      → ((x : Answer) (l1 : LinkedList) → serve q l ≡ ok (x, l1) → Fresh requests l1)
      → Fresh (q ∷ requests) l

-- What the answer of the sequence promises of the list.
Same : Result (Answer × LinkedList) → Result (Answer × List ℕ) → Type 0
Same m (ok (x, xs)) =
    (l : LinkedList) × (cells : Cells) × (m ≡ ok (x, l)) × Represents l cells × (items cells ≡ xs)
Same m abort = m ≡ abort
Same m fault = m ≡ fault

Matches-Same :
    (m : Result LinkedList) (s : Result (List ℕ))
    → Matches m s
    → Same (m >>= λ l. ok (done, l)) (s >>= λ xs. ok (done, xs))
unfolding Same
Matches-Same m (ok xs) (l, cells, e, r, same) = (l, cells, >>=-ok _ e, r, same)
Matches-Same m abort e = ap (λ m. m >>= λ l. ok (done, l)) e
Matches-Same m fault e = ap (λ m. m >>= λ l. ok (done, l)) e

MatchesItem-Same :
    (m : Result (ℕ × LinkedList)) (s : Result (ℕ × List ℕ))
    → MatchesItem m s
    → Same (m >>= λ p. ok (gives p.0, p.1)) (s >>= λ p. ok (gives p.0, p.1))
unfolding Same
MatchesItem-Same m (ok (x, xs)) (l, cells, e, r, same) = (l, cells, >>=-ok _ e, r, same)
MatchesItem-Same m abort e = ap (λ m. m >>= λ p. ok (gives p.0, p.1)) e
MatchesItem-Same m fault e = ap (λ m. m >>= λ p. ok (gives p.0, p.1)) e

front-cons :
    (l : LinkedList) (a : Ptr) (v : ℕ) (cells : Cells)
    → Represents l ((a, v) ∷ cells)
    → front l ≡ ok v
unfolding front
front-cons l a v cells r =
    let here : load l.heap l.first ≡ ok _ =
      ap (load l.heap) r.first ∙ load-ok l.heap a _ r.chain.0 r.chain.1 in
    >>=-ok _ here

front-Same :
    (l : LinkedList) (cells : Cells)
    → Represents l cells
    → Same (serve do_front l) (serve_sequence do_front (items cells))
unfolding Same serve serve_sequence front Sequence.front load
front-Same l [] r = rw r.first refl
front-Same l ((a, v) ∷ cells) r = (l, (a, v) ∷ cells, >>=-ok _ (front-cons l a v cells r), r, refl)

serve-Same :
    (q : Request) (l : LinkedList) (cells : Cells)
    → Represents l cells
    → Unused q l
    → Same (serve q l) (serve_sequence q (items cells))
unfolding Same serve serve_sequence
serve-Same (do_append p item) l cells r (ne, free) =
    Matches-Same _ _ (append_lem l cells r p item ne free)
serve-Same (do_prepend p item) l cells r (ne, free) =
    Matches-Same _ _ (prepend_lem l cells r p item ne free)
serve-Same do_front l cells r u = front-Same l cells r
serve-Same do_remove_front l cells r u = MatchesItem-Same _ _ (remove_front_lem l cells r)
serve-Same (do_remove item) l cells r u = Matches-Same _ _ (remove_lem l cells r item)
serve-Same (do_is_in_list item) l cells r u =
    (l, cells, >>=-ok _ (is_in_list-ok l cells item r.chain r.first r.count), r, refl)
serve-Same do_sanity_check l cells r u = (l, cells, >>=-ok _ (sanity_check_lem l cells r), r, refl)

-- The calls that follow see the same, if they do so after any answer.
run-Same :
    (requests : List Request) (m : Result (Answer × LinkedList)) (s : Result (Answer × List ℕ))
    → Same m s
    → ((x : Answer) (l : LinkedList) (cells : Cells)
        → m ≡ ok (x, l)
        → Represents l cells
        → run requests l ≡ run_sequence requests (items cells))
    → (m >>= λ p. run requests p.1 >>= λ xs. ok (p.0 ∷ xs))
      ≡ (s >>= λ p. run_sequence requests p.1 >>= λ xs. ok (p.0 ∷ xs))
unfolding Same
run-Same requests m (ok (x, xs)) (l, cells, e, r, same) next =
    >>=-ok _ e
    ∙ ap (λ q. q >>= λ xs. ok (x ∷ xs)) (next x l cells e r ∙ ap (run_sequence requests) same)
run-Same requests m abort e next = ap (λ m. m >>= λ p. run requests p.1 >>= λ xs. ok (p.0 ∷ xs)) e
run-Same requests m fault e next = ap (λ m. m >>= λ p. run requests p.1 >>= λ xs. ok (p.0 ∷ xs)) e

run-run_sequence :
    (requests : List Request) (l : LinkedList) (cells : Cells)
    → Represents l cells
    → Fresh requests l
    → run requests l ≡ run_sequence requests (items cells)
unfolding run run_sequence
run-run_sequence [] l cells r f = refl
run-run_sequence (q ∷ requests) l cells r (fresh_next u f) =
    run-Same requests (serve q l) (serve_sequence q (items cells)) (serve-Same q l cells r u)
      λ x l1 cells1 e r1. run-run_sequence requests l1 cells1 r1 (f x l1 e)

-- Whatever calls are made of a new list, one after the other, their answers are those of the
-- sequence of items, where one stops at a failed assertion or faults so does the other, and
-- SanityCheck never fails, if `new` returns memory that is not in use.
pub run_lem :
    (requests : List Request) (h : Heap)
    → Fresh requests (new_list h)
    → run requests (new_list h) ≡ run_sequence requests []
run_lem requests h f =
    run-run_sequence requests (new_list h) []
      (record { chain = tt; first = refl; last = refl; count = refl; distinct = tt }) f
