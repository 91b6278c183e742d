-- ===== src/Kernel/Sound/Check.antt =====
-- CheckIfDue: it always returns, and leaves no interrupt that is due.
use nach_os.Base.{
  ℕ, ◌+◌, ◌-◌, ◌*◌, ◌<◌, ◌^◌, ◌∷◌, ◌≤◌, ◌≡◌, ◌⊎◌, inl, inr, refl, sym, ◌∙◌, ap, subst, Bool, true,
  false, List, [], ok, arith, ltb, ltb→lt, ltb→ge, Bool-cases, List-cases, ltb→ge,
}
use nach_os.Kernel.{int_off, PendingInterrupt, Kernel}
use nach_os.Kernel.Interrupt.{timer_ticks, handle_due, advance_clock, check_if_due}
use nach_os.Kernel.Interrupt.Queue.{IsSorted, due, due-IsSorted}
use nach_os.Kernel.Sound.{IsOrdered}
use nach_os.Kernel.Mutex.Keeps.{Keeps}
use nach_os.Kernel.Sound.Handlers.{Within, Kept, Kept-refl}
use nach_os.Kernel.Sound.Due.{handle_due_ok}

-- The result of CheckIfDue: no interrupt that is due is left, and the rest of the machine is as it
-- was, but for the clock.
pub record Checked (advance : Bool) (k : Kernel) (found : Bool) (k' : Kernel) : Type 0 where
  pub kept : Kept (record k { stats = k'.stats }) k'
  pub ordered : IsOrdered k'
  pub sorted : IsSorted k.pending → IsSorted k'.pending
  pub none_due : IsSorted k.pending → due k'.stats.total_ticks k'.pending ≡ 0
  pub keeps : Keeps k k'
  pub clock : k.stats.total_ticks ≤ k'.stats.total_ticks
  pub clock_within :
      (n : ℕ) → k.stats.total_ticks ≤ n → Within n k.pending → k'.stats.total_ticks ≤ n
  pub within :
      (n : ℕ)
      → k'.stats.total_ticks + timer_ticks * 2 ≤ n
      → Within n k.pending
      → Within n k'.pending
  pub stopped : advance ≡ false → k'.stats.total_ticks ≡ k.stats.total_ticks
  pub unchanged : found ≡ false → k' ≡ k
  pub not_found : found ≡ false → (k.pending ≡ []) ⊎ (advance ≡ false)

module _ (k : Kernel) (off : k.level ≡ int_off) where
  check-empty : (advance : Bool) → k.pending ≡ [] → check_if_due advance k ≡ ok (false, k)
  unfolding check_if_due
  check-empty advance p = ground arith

  module _ (next : PendingInterrupt) (later : List PendingInterrupt)
      (p : k.pending ≡ next ∷ later) where
    check-early : ltb k.stats.total_ticks next.when ≡ true → check_if_due false k ≡ ok (false, k)
    unfolding check_if_due
    check-early early = ground arith

    check-advance :
        {k1 : Kernel}
        → ltb k.stats.total_ticks next.when ≡ true
        → handle_due (advance_clock k next.when) ≡ ok k1
        → check_if_due true k ≡ ok (true, k1)
    unfolding check_if_due
    check-advance early e = ground arith

    check-now :
        {k1 : Kernel} (advance : Bool)
        → ltb k.stats.total_ticks next.when ≡ false
        → handle_due k ≡ ok k1
        → check_if_due advance k ≡ ok (true, k1)
    unfolding check_if_due
    check-now advance now e = ground arith

Checked-same :
    (advance : Bool) (k : Kernel)
    → IsOrdered k
    → (IsSorted k.pending → due k.stats.total_ticks k.pending ≡ 0)
    → (k.pending ≡ []) ⊎ (advance ≡ false)
    → Checked advance k false k
Checked-same advance k o none_due why = record {
  kept = Kept-refl k;
  ordered = o;
  sorted = λ s. s;
  none_due = none_due;
  keeps = λ l n x. x;
  clock = omega arith;
  clock_within = λ n l w. l;
  within = λ n l w. w;
  stopped = λ a. refl;
  unchanged = λ f. refl;
  not_found = λ f. why;
}

Kept-set-now : {k k' : Kernel} → Kept k k' → Kept (record k { stats = k'.stats }) k'
Kept-set-now {k} {k'} a = record {
  level = a.level;
  in_handler = a.in_handler;
  current_thread = a.current_thread;
  functions = a.functions;
  locks = a.locks;
  conditions = a.conditions;
  num_semaphores = a.num_semaphores;
  timer = a.timer;
  code = a.code;
  now = refl;
}

-- The next interrupt is not due yet.
check_later :
    (advance : Bool) (k : Kernel)
    → IsOrdered k
    → k.level ≡ int_off
    → k.in_handler ≡ false
    → (next : PendingInterrupt) (later : List PendingInterrupt) → k.pending ≡ next ∷ later
    → ltb k.stats.total_ticks next.when ≡ true
    → (found : Bool) × (k' : Kernel) × (check_if_due advance k ≡ ok (found, k'))
      × Checked advance k found k'
unfolding advance_clock
check_later false k o off h next later p early = (
  false,
  k,
  check-early k off next later p early,
  Checked-same false k o
      (λ s.
        let s' : IsSorted (next ∷ later) = subst IsSorted p s in
        ap (due k.stats.total_ticks) p
        ∙ ground (arith, due-IsSorted k.stats.total_ticks next later))
      (inr refl),
)
check_later true k o off h next later p early =
    let (k1, e, s) = handle_due_ok (advance_clock k next.when) next later o off h p (omega arith) in
    (
      true,
      k1,
      check-advance k off next later p early e,
      record {
        kept = Kept-set-now s.kept;
        ordered = s.ordered;
        sorted = s.sorted;
        none_due = λ q. subst (λ n. due n k1.pending ≡ 0) (sym s.kept.now) (s.none_due q);
        keeps = s.keeps;
        clock = omega (arith, s.kept.now, ltb→lt k.stats.total_ticks next.when early);
        clock_within = λ n l w. omega (arith, s.kept.now, (subst (Within n) p w).0);
        within = λ n l w. s.within n (subst (λ t. t + timer_ticks * 2 ≤ n) s.kept.now l) w;
        stopped = λ a. cc;
        unchanged = λ f. cc;
        not_found = λ f. cc;
      },
    )

pub check_if_due_ok :
    (advance : Bool) (k : Kernel)
    → IsOrdered k
    → k.level ≡ int_off
    → k.in_handler ≡ false
    → (found : Bool) × (k' : Kernel) × (check_if_due advance k ≡ ok (found, k'))
      × Checked advance k found k'
check_if_due_ok advance k o off h = elim (List-cases k.pending) [
  | inl empty ↦ (
    false,
    k,
    check-empty k off advance empty,
    Checked-same advance k o (λ s. ap (due k.stats.total_ticks) empty) (inl empty),
  )
  | inr (next, later, p) ↦ elim (Bool-cases (ltb k.stats.total_ticks next.when)) [
    | inl early ↦ check_later advance k o off h next later p early
    | inr now ↦
        let (k1, e, s) = handle_due_ok k next later o off h p (ltb→ge _ _ now) in
        (
          true,
          k1,
          check-now k off next later p advance now e,
          record {
            kept = Kept-set-now s.kept;
            ordered = s.ordered;
            sorted = s.sorted;
            none_due = λ q. subst (λ n. due n k1.pending ≡ 0) (sym s.kept.now) (s.none_due q);
            keeps = s.keeps;
            clock = omega (arith, s.kept.now);
            clock_within = λ n l w. omega (arith, s.kept.now);
            within = λ n l w. s.within n (subst (λ t. t + timer_ticks * 2 ≤ n) s.kept.now l) w;
            stopped = λ a. s.kept.now;
            unchanged = λ f. cc;
            not_found = λ f. cc;
          },
        )
  ]
]

Within-le :
    (m n : ℕ) (pending : List PendingInterrupt) → m ≤ n → Within m pending → Within n pending
Within-le m n [] l w = tt
Within-le m n (x ∷ pending) l w = (omega arith, Within-le m n pending l w.1)

-- CheckIfDue with interrupts off, where the clock and every pending interrupt are at least 200 ticks
-- before the end of the range of an int, always returns, and no time that it has computed has left
-- that range. No interrupt that is due is left if the list was sorted, which it stays; the clock does
-- not go back, and moves only to advance; the threads stay in order; and if nothing was found, the
-- machine is unchanged, and no interrupt was pending or the clock was not to be advanced.
pub check_if_due_lem :
    (advance : Bool) (k : Kernel)
    → IsOrdered k
    → k.level ≡ int_off
    → k.in_handler ≡ false
    → k.stats.total_ticks + timer_ticks * 2 < 2 ^ 31
    → Within (2 ^ 31 - 1 - timer_ticks * 2) k.pending
    → (found : Bool) × (k' : Kernel) × (check_if_due advance k ≡ ok (found, k'))
      × Checked advance k found k'
      × (k'.stats.total_ticks + timer_ticks * 2 < 2 ^ 31)
      × Within (2 ^ 31 - 1) k'.pending
check_if_due_lem advance k o off h early within =
    let (found, k', e, c) = check_if_due_ok advance k o off h in
    let clock = c.clock_within (2 ^ 31 - 1 - timer_ticks * 2) (omega arith) within in
    (
      found,
      k',
      e,
      c,
      omega (arith, clock),
      c.within (2 ^ 31 - 1) (omega (arith, clock))
          (Within-le (2 ^ 31 - 1 - timer_ticks * 2) (2 ^ 31 - 1) k.pending (omega arith) within),
    )
