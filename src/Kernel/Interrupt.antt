-- ===== src/Kernel/Interrupt.antt =====
-- machine/interrupt.cc, with the handlers that it calls: threads/alarm.cc and machine/timer.cc for
-- the timer, and `semaphore->V()` for a device (SynchDisk::CallBack of filesys/synchdisk.cc).
pub mod Queue
use nach_os.Base.{
  ℕ, zero, suc, ◌+◌, ◌-◌, ◌*◌, ◌%◌, Bool, true, false, not, ◌&&◌, ◌||◌, List, [], ◌∷◌, Result, ok,
  fault, ◌>>=◌, ◌>>◌, assert, ltb, leb, ◌==◌, if◌then◌else◌, length,
}
use nach_os.Kernel.{
  IntStatus, int_off, int_on, MachineStatus, idle_mode, system_mode, user_mode, IntType, timer_int,
  CallBackObj, timer, device, PendingInterrupt, Statistics, Kernel,
}
use nach_os.Kernel.Scheduler.{is_off, v_body}

-- UserTick, SystemTick, TimerTicks
abbrev pub user_tick : ℕ
user_tick = 1

abbrev pub system_tick : ℕ
system_tick = 10

abbrev pub timer_ticks : ℕ
timer_ticks = 100

abbrev pub is_idle : MachineStatus → Bool
is_idle idle_mode = true
is_idle _ = false

-- SortedList::Insert with PendingCompare: behind every interrupt that is not later.
unfoldable pub insert : PendingInterrupt → List PendingInterrupt → List PendingInterrupt
insert x [] = x ∷ []
insert x (y ∷ pending) = if ltb x.when y.when then x ∷ y ∷ pending else y ∷ insert x pending

-- Times are natural numbers; where `when`, an int, could leave its range is left to the theorems.
unfoldable pub schedule : Kernel → CallBackObj → ℕ → IntType → Result Kernel
schedule k to_call from_now type = do
  let to_occur : PendingInterrupt = record {
    call_on_interrupt = to_call;
    when = k.stats.total_ticks + from_now;
    type = type;
  }
  assert (ltb 0 from_now)
  ok (record k { pending = insert to_occur k.pending })

unfoldable pub yield_on_return : Kernel → Result Kernel
yield_on_return k = do assert k.in_handler; ok (record k { yield_on_return = true })

-- Alarm::CallBack
unfoldable pub alarm : Kernel → Result Kernel
alarm k = if is_idle k.status then ok k else yield_on_return k

-- Timer::SetInterrupt
unfoldable pub set_interrupt : Kernel → Result Kernel
set_interrupt k =
    if k.timer.disable
    then ok k
    else if k.timer.randomize
    then schedule (record k { draws = k.draws + 1 }) timer
        (1 + k.random k.draws % (timer_ticks * 2)) timer_int
    else schedule k timer timer_ticks timer_int

unfoldable pub call_back : CallBackObj → Kernel → Result Kernel
call_back timer k = do k1 ← alarm k; set_interrupt k1
call_back (device s) k = v_body k s

-- !pending->IsEmpty() && (pending->Front()->when <= stats->totalTicks)
unfoldable pub more_due : Kernel → Bool
more_due k = elim (k.pending) [ [] ↦ false | next ∷ _ ↦ leb next.when k.stats.total_ticks ]

-- The do loop of CheckIfDue on the rounds left.
unfoldable pub call_due : ℕ → Kernel → Result Kernel
call_due zero k = fault
call_due (suc rounds) k = elim (k.pending) [
  | [] ↦ fault
  | next ∷ later ↦ do
    k1 ← call_back next.call_on_interrupt (record k { pending = later })
    let rest = call_due rounds k1
    if more_due k1 then rest else ok k1
]

-- CheckIfDue from `inHandler = TRUE` on.
unfoldable pub handle_due : Kernel → Result Kernel
handle_due k = do
  k1 ← call_due (length k.pending) (record k { in_handler = true })
  ok (record k1 { in_handler = false })

-- The clock is moved to the next interrupt.
unfoldable pub advance_clock : Kernel → ℕ → Kernel
advance_clock k when = record k {
  stats = record (k.stats) {
    idle_ticks = k.stats.idle_ticks + (when - k.stats.total_ticks);
    total_ticks = when;
  };
}

-- DelayedLoad(0, 0) of the simulated processor, before the handlers, changes only its registers, which
-- are not part of this state.
unfoldable pub check_if_due : Bool → Kernel → Result (Bool × Kernel)
check_if_due advance k = do
  assert (is_off k.level)
  elim (k.pending) [
    | [] ↦ ok (false, k)
    | next ∷ _ ↦
        if ltb k.stats.total_ticks next.when
        then (if advance
            then (do k1 ← handle_due (advance_clock k next.when); ok (true, k1))
            else ok (false, k))
        else (do k1 ← handle_due k; ok (true, k1))
  ]

-- OneTick up to `if (yieldOnReturn)`.
unfoldable pub tick : Kernel → Result Kernel
tick k = do
  let s = k.stats
  let user = record s {
    total_ticks = s.total_ticks + user_tick;
    user_ticks = s.user_ticks + user_tick;
  }
  let system = record s {
    total_ticks = s.total_ticks + system_tick;
    system_ticks = s.system_ticks + system_tick;
  }
  let stats : Statistics = elim (k.status) [ system_mode ↦ system | _ ↦ user ]
  (due, k1) ← check_if_due false (record k { stats = stats; level = int_off })
  ok (record k1 { level = int_on })

-- Idle; a halted machine runs no more.
unfoldable pub idle : Kernel → Result Kernel
idle k = do
  (due, k1) ← check_if_due true (record k { status = idle_mode })
  ok (if due then record k1 { status = system_mode } else record k1 { halted = true })
