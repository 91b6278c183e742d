-- ===== src/Kernel/Sound/Due.antt =====
-- The loop of CheckIfDue: it ends, and calls every interrupt that is due.
use nach_os.Base.{
  ◌+◌, ◌*◌, All, ℕ, zero, suc, ◌≤◌, ◌≡◌, inl, inr, refl, sym, ◌∙◌, ap, subst, true, false, List,
  ◌∷◌, ok, arith, if◌then◌else◌, if_true, if_false, >>=-ok, Bool-cases, List-cases, length,
}
use nach_os.Kernel.{int_off, PendingInterrupt, Kernel}
use nach_os.Kernel.Interrupt.{timer_ticks, call_back, more_due, call_due, handle_due}
use nach_os.Kernel.Interrupt.Queue.{IsSorted, due, due-le-length, due-IsSorted}
use nach_os.Kernel.Sound.{IsOrdered}
use nach_os.Kernel.Mutex.{Spares, Excludes}
use nach_os.Kernel.Mutex.Keeps.{Keeps, Private-same}
use nach_os.Kernel.Sound.Handlers.{Handled-Excludes, Within, Kept, Kept-trans, Kept-update}
use nach_os.Kernel.Sound.Devices.{call_back_ok}

-- Every interrupt that was due has been called, and those that are left are later.
pub record Served (k k' : Kernel) : Type 0 where
  pub kept : Kept k k'
  pub ordered : IsOrdered k'
  pub sorted : IsSorted k.pending → IsSorted k'.pending
  pub none_due : IsSorted k.pending → due k.stats.total_ticks k'.pending ≡ 0
  pub keeps : Keeps k k'
  pub within :
      (n : ℕ) → k.stats.total_ticks + timer_ticks * 2 ≤ n → Within n k.pending → Within n k'.pending

more_due-false :
    (k : Kernel) → IsSorted k.pending → more_due k ≡ false → due k.stats.total_ticks k.pending ≡ 0
unfolding more_due
more_due-false k s h = elim (List-cases k.pending) [
  | inl e ↦ ap (due k.stats.total_ticks) e
  | inr (x, rest, e) ↦
      let s' : IsSorted (x ∷ rest) = subst IsSorted e s in
      ap (due k.stats.total_ticks) e ∙ ground (arith, due-IsSorted k.stats.total_ticks x rest)
]

more_due-true :
    (k : Kernel)
    → more_due k ≡ true
    → (x : PendingInterrupt) × (rest : List PendingInterrupt) × (k.pending ≡ x ∷ rest)
      × (x.when ≤ k.stats.total_ticks)
unfolding more_due
more_due-true k h = elim (List-cases k.pending) [
  | inl e ↦ absurd (ground arith)
  | inr (x, rest, e) ↦ (x, rest, e, ground arith)
]

call_due-suc :
    (rounds : ℕ) (k : Kernel) (next : PendingInterrupt) (later : List PendingInterrupt)
    {k1 : Kernel}
    → k.pending ≡ next ∷ later
    → call_back next.call_on_interrupt (record k { pending = later }) ≡ ok k1
    → call_due (suc rounds) k ≡ (if more_due k1 then call_due rounds k1 else ok k1)
unfolding call_due
call_due-suc rounds k next later p e = ground arith

call_due_ok :
    (rounds : ℕ) (k : Kernel) (next : PendingInterrupt) (later : List PendingInterrupt)
    → IsOrdered k
    → k.level ≡ int_off
    → k.in_handler ≡ true
    → k.pending ≡ next ∷ later
    → next.when ≤ k.stats.total_ticks
    → due k.stats.total_ticks k.pending ≤ rounds
    → (k' : Kernel) × (call_due rounds k ≡ ok k') × Served k k'
call_due_ok zero k next later o off h p now fuel = absurd (ground arith)
call_due_ok (suc rounds) k next later o off h p now fuel =
    let (k1, e, c) = call_back_ok next.call_on_interrupt (record k { pending = later }) o off h in
    let kept : Kept k k1 =
      Kept-trans (Kept-update k k.semaphores later k.draws k.yield_on_return) c.kept in
    let sorted : IsSorted k.pending → IsSorted k1.pending =
      (λ s. c.sorted (subst IsSorted p s).1) in
    let within : (n : ℕ)
        → k.stats.total_ticks + timer_ticks * 2 ≤ n
        → Within n k.pending
        → Within n k1.pending =
      (λ n l w. c.within n l (subst (Within n) p w).1) in
    let called : Keeps k k1 = (λ (l s : ℕ) (x : Excludes l s k).
      let a : All (λ y. Spares s y.call_on_interrupt) (next ∷ later) =
        subst (All (λ y. Spares s y.call_on_interrupt)) p x.0.spared in
      Handled-Excludes l s c a.0 (Private-same x.0 refl a.1 refl refl refl, x.1)) in
    elim (Bool-cases (more_due k1)) [
      | inl more ↦
          let (x, rest, p1, x_due) = more_due-true k1 more in
          let (k2, e2, s) =
            call_due_ok rounds k1 x rest c.ordered (kept.level ∙ off) (kept.in_handler ∙ h) p1 x_due
              (ground (arith, kept.now, c.due_same)) in
          (
            k2,
            call_due-suc rounds k next later p e ∙ if_true _ _ more ∙ e2,
            record {
              kept = Kept-trans kept s.kept;
              ordered = s.ordered;
              sorted = λ q. s.sorted (sorted q);
              none_due = λ q. subst (λ n. due n k2.pending ≡ 0) kept.now (s.none_due (sorted q));
              keeps = λ l n x. s.keeps l n (called l n x);
              within = λ n l w.
                  s.within n (subst (λ t. t + timer_ticks * 2 ≤ n) (sym kept.now) l) (within n l w);
            },
          )
      | inr done ↦ (
        k1,
        call_due-suc rounds k next later p e ∙ if_false _ _ done,
        record {
          kept = kept;
          ordered = c.ordered;
          sorted = sorted;
          none_due =
              λ q. subst (λ n. due n k1.pending ≡ 0) kept.now (more_due-false k1 (sorted q) done);
          keeps = called;
          within = within;
        },
      )
    ]

pub handle_due_ok :
    (k : Kernel) (next : PendingInterrupt) (later : List PendingInterrupt)
    → IsOrdered k
    → k.level ≡ int_off
    → k.in_handler ≡ false
    → k.pending ≡ next ∷ later
    → next.when ≤ k.stats.total_ticks
    → (k' : Kernel) × (handle_due k ≡ ok k') × Served k k'
unfolding handle_due
handle_due_ok k next later o off h p now =
    let (k1, e, s) =
      call_due_ok (length k.pending) (record k { in_handler = true }) next later o off refl p now
        (due-le-length k.stats.total_ticks k.pending) in
    (
      record k1 { in_handler = false },
      >>=-ok _ e,
      record {
        kept = record {
          level = s.kept.level;
          in_handler = sym h;
          current_thread = s.kept.current_thread;
          functions = s.kept.functions;
          locks = s.kept.locks;
          conditions = s.kept.conditions;
          num_semaphores = s.kept.num_semaphores;
          timer = s.kept.timer;
          code = s.kept.code;
          now = s.kept.now;
        };
        ordered = s.ordered;
        sorted = s.sorted;
        none_due = s.none_due;
        keeps = s.keeps;
        within = s.within;
      },
    )
