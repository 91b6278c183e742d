-- ===== src/LinkedList/Tests.antt =====
-- Runs of the list at concrete inputs, and the witness.
use nach_os.Base.{
  ◌≡◌, refl, sym, ap, fault, false, Option, none, List, [], ◌∷◌, Result, ok, abort, arith,
}
use nach_os.LinkedList.{
  ListElement, Heap, LinkedList, new_list, write, load, set_next, is_in_loop, is_in_list,
  new_element, link_last, link_first, append, prepend, front, remove_front, unlink, remove_loop,
  remove_found, remove, sanity_loop, sanity_check,
}
use nach_os.LinkedList.Cells.{Cells}
use nach_os.LinkedList.SelfTest.{append_each, remove_each, self_test}
use nach_os.LinkedList.Runs.{
  Request, do_append, do_prepend, do_front, do_remove_front, do_remove, do_is_in_list,
  do_sanity_check, Answer, done, gives, says, serve, run, run_sequence, Fresh, fresh_end,
  fresh_next, run_lem,
}

abbrev no_memory : Heap
no_memory p = none

abbrev later_calls : List Request
later_calls =
    do_sanity_check
    ∷ do_front
    ∷ do_remove 7
    ∷ do_is_in_list 7
    ∷ do_remove_front
    ∷ do_sanity_check
    ∷ []

abbrev calls : List Request
calls = do_append 4 7 ∷ do_prepend 8 9 ∷ later_calls

abbrev answers : List Answer
answers = done ∷ done ∷ done ∷ gives 9 ∷ done ∷ says false ∷ gives 9 ∷ done ∷ []

-- The run on memory gives the answers.
example_run : run calls (new_list no_memory) ≡ ok answers
unfolding run serve write load set_next is_in_loop is_in_list new_element link_last link_first
    append prepend front remove_front unlink remove_loop remove_found remove sanity_loop
    sanity_check
example_run = refl

-- An item is not put on the list twice.
run_twice : run (do_append 4 7 ∷ do_append 8 7 ∷ []) (new_list no_memory) ≡ abort
unfolding run serve write load set_next is_in_loop is_in_list new_element link_last append
run_twice = refl

abbrev at_8 : Result (Answer × LinkedList) → Option ListElement
at_8 (ok (x, l)) = l.heap 8
at_8 abort = none
at_8 fault = none

free_8 :
    (x : Answer) (l : LinkedList)
    → serve (do_append 4 7) (new_list no_memory) ≡ ok (x, l)
    → l.heap 8 ≡ none
unfolding serve write load set_next is_in_loop is_in_list new_element link_last append
free_8 x l e = sym (ap at_8 e)

calls-Fresh : Fresh calls (new_list no_memory)
calls-Fresh =
    fresh_next (λ z. omega arith, refl)
      λ x l e.
        fresh_next (λ z. omega arith, free_8 x l e)
          λ x l e. fresh_next tt λ x l e. fresh_next tt λ x l e.
            fresh_next tt λ x l e.
              fresh_next tt λ x l e. fresh_next tt λ x l e. fresh_next tt λ x l e. fresh_end

run_lem_example : run calls (new_list no_memory) ≡ run_sequence calls []
run_lem_example = run_lem calls no_memory calls-Fresh

abbrev three_items : Cells
three_items = (4, 7) ∷ (8, 9) ∷ (2, 5) ∷ []

-- SelfTest passes, and leaves an empty list.
self_test_run :
    (l : LinkedList) × (self_test (new_list no_memory) three_items ≡ ok l) × (l.num_in_list ≡ 0)
unfolding write load set_next is_in_loop is_in_list new_element link_last append remove_front unlink
    remove_loop remove_found remove sanity_loop sanity_check append_each remove_each self_test
self_test_run = (_, refl, refl)
