-- ===== src/Kernel/Sound/Devices.antt =====
-- Scheduling an interrupt, and the handlers of the devices: machine/timer.cc, threads/alarm.cc and
-- the V of another device.
use nach_os.Base.{
  ◌≤◌, inl, inr, ℕ, ◌+◌, ◌*◌, ◌%◌, ◌<◌, ◌≡◌, inl, inr, refl, ◌∙◌, true, ok, arith, lt→ltb, if_true,
  if_false, >>=-ok, Bool-cases,
}
use nach_os.Kernel.{
  int_off, timer, device, CallBackObj, IntType, timer_int, PendingInterrupt, Kernel,
}
use nach_os.Kernel.Interrupt.{
  timer_ticks, is_idle, insert, schedule, yield_on_return, alarm, set_interrupt, call_back,
}
use nach_os.Kernel.Interrupt.Queue.{insert-IsSorted, due-insert}
use nach_os.Kernel.Interrupt.Queue.{All-insert}
use nach_os.Kernel.Sound.{IsOrdered}
use nach_os.Kernel.Sound.Handlers.{Handled, Handled-refl, Handled-trans, Kept-update, v_body_ok}

Handled-schedule :
    (k : Kernel) (from_now : ℕ) (type : IntType)
    → IsOrdered k
    → 0 < from_now
    → from_now ≤ timer_ticks * 2
    → (k' : Kernel) × (schedule k timer from_now type ≡ ok k') × Handled timer k k'
unfolding schedule
Handled-schedule k from_now type o h soon =
    let x : PendingInterrupt = record {
      call_on_interrupt = timer;
      when = k.stats.total_ticks + from_now;
      type = type;
    } in
    (
      record k { pending = insert x k.pending },
      rw (lt→ltb _ _ h) refl,
      record {
        kept = Kept-update k k.semaphores _ k.draws k.yield_on_return;
        ordered = o;
        due_same = due-insert k.stats.total_ticks x k.pending (omega arith);
        sorted = insert-IsSorted x k.pending;
        values = λ s. refl;
        spares = λ s a. All-insert _ x k.pending tt a;
        within = λ n l a. All-insert _ x k.pending (omega arith) a;
      },
    )

pub set_interrupt_ok :
    (k : Kernel) → IsOrdered k → (k' : Kernel) × (set_interrupt k ≡ ok k') × Handled timer k k'
unfolding set_interrupt
set_interrupt_ok k o = elim (Bool-cases k.timer.disable) [
  | inl off ↦ (k, rw off, Handled-refl o)
  | inr on ↦ elim (Bool-cases k.timer.randomize) [
    | inl r ↦
        let drawn : Handled timer k (record k { draws = k.draws + 1 }) = record {
          kept = Kept-update k k.semaphores k.pending (k.draws + 1) k.yield_on_return;
          ordered = o;
          due_same = refl;
          sorted = λ h. h;
          values = λ s. refl;
          spares = λ s h. h;
          within = λ n l h. h;
        } in
        let (k1, e, h) =
          Handled-schedule (record k { draws = k.draws + 1 })
            (1 + k.random k.draws % (timer_ticks * 2)) timer_int o (omega arith) (omega arith) in
        (k1, if_false _ _ on ∙ if_true _ _ r ∙ e, Handled-trans drawn h)
    | inr r ↦
        let (k1, e, h) = Handled-schedule k timer_ticks timer_int o (omega arith) (omega arith) in
        (k1, if_false _ _ on ∙ if_false _ _ r ∙ e, h)
  ]
]

alarm_ok :
    (k : Kernel)
    → IsOrdered k
    → k.in_handler ≡ true
    → (k' : Kernel) × (alarm k ≡ ok k') × Handled timer k k'
unfolding alarm yield_on_return
alarm_ok k o h = elim (Bool-cases (is_idle k.status)) [
  | inl i ↦ (k, rw i, Handled-refl o)
  | inr busy ↦ (
    record k { yield_on_return = true },
    rw (busy, h),
    record {
      kept = Kept-update k k.semaphores k.pending k.draws true;
      ordered = o;
      due_same = refl;
      sorted = λ h'. h';
      values = λ s. refl;
      spares = λ s h'. h';
      within = λ n l h'. h';
    },
  )
]

-- Each handler runs to its end.
pub call_back_ok :
    (object : CallBackObj) (k : Kernel)
    → IsOrdered k
    → k.level ≡ int_off
    → k.in_handler ≡ true
    → (k' : Kernel) × (call_back object k ≡ ok k') × Handled object k k'
unfolding call_back
call_back_ok timer k o off h =
    let (k1, e1, h1) = alarm_ok k o h in
    let (k2, e2, h2) = set_interrupt_ok k1 h1.ordered in (k2, >>=-ok _ e1 ∙ e2, Handled-trans h1 h2)
call_back_ok (device s) k o off h = v_body_ok k s o off
