-- ===== src/Kernel/Step.antt =====
-- threads/thread.cc and threads/synch.cc: one step of the running thread. A call of a routine that
-- may switch threads puts the statements of its body in front of what the thread has still to run,
-- so that another thread can run in between exactly where the code calls SWITCH.
use nach_os.Base.{
  ℕ, zero, suc, ◌+◌, ◌-◌, Bool, true, false, not, ◌&&◌, ◌||◌, Option, none, some, List, [], ◌∷◌,
  ◌++◌, Result, ok, fault, ◌>>=◌, ◌>>◌, assert, ◌==◌, if◌then◌else◌,
}
use nach_os.LinkedList.Sequence.{append}
use nach_os.Kernel.{
  IntStatus, int_off, int_on, system_mode, just_created, blocked, Statement, p_enter, p_loop,
  v_enter, acquire, hold, release, wait, signal, broadcast, set_level, one_tick, set_status, fork,
  begin, yield, finish, halt, sleep_loop, switched, Kernel, put,
}
use nach_os.Kernel.Scheduler.{
  is_off, thread_at, set_thread_status, set_code, ready_to_run, find_next_to_run, run,
  check_to_be_destroyed, v_body,
}
use nach_os.Kernel.Interrupt.{tick, idle}

-- SetLevel(IntOff), which is always allowed and takes no time.
abbrev pub disabled : Kernel → Kernel
disabled k = record k { level = int_off }

-- The running thread goes on with `code`.
unfoldable pub go : Kernel → List Statement → Result Kernel
go k code = set_code k k.current_thread code

-- Thread::Sleep up to its loop.
unfoldable pub sleep : Kernel → Bool → List Statement → Result Kernel
sleep k finishing rest = do
  assert (is_off k.level)
  k1 ← set_thread_status k k.current_thread blocked
  go k1 (sleep_loop finishing ∷ rest)

-- The loop of Semaphore::P.
unfoldable pub p_test : Kernel → ℕ → List Statement → Result Kernel
p_test k s rest =
    let semaphore = k.semaphores s in
    if semaphore.value == 0
    then (do
      queue ← append semaphore.queue k.current_thread
      sleep (record k { semaphores = put k.semaphores s (record semaphore { queue = queue }) })
          false (p_loop s ∷ rest))
    else go
        (record k {
          semaphores = put k.semaphores s (record semaphore { value = semaphore.value - 1 });
        })
        rest

unfoldable pub change_level : Kernel → IntStatus → List Statement → Result Kernel
change_level k now rest = do
  assert (is_off now || not k.in_handler)
  go (record k { level = now })
      (if not (is_off now) && is_off k.level then one_tick ∷ rest else rest)

-- Interrupt::OneTick
unfoldable pub tick_yield : Kernel → List Statement → Result Kernel
tick_yield k rest = do
  k1 ← tick k
  if k1.yield_on_return
      then go (record k1 { yield_on_return = false; status = system_mode })
          (yield ∷ set_status k.status ∷ rest)
      else go k1 rest

unfoldable pub yield_body : Kernel → List Statement → Result Kernel
yield_body k rest = do
  (next, k1) ← find_next_to_run (disabled k)
  elim next [
    | none ↦ go k1 (set_level k.level ∷ rest)
    | some t ↦ do k2 ← ready_to_run k1 k1.current_thread; run k2 t false (set_level k.level ∷ rest)
  ]

-- The loop of Thread::Sleep.
unfoldable pub sleep_test : Kernel → Bool → List Statement → Result Kernel
sleep_test k finishing rest = do
  (next, k1) ← find_next_to_run k
  elim next [ none ↦ idle k1 | some t ↦ run k1 t finishing rest ]

-- `t` is the address that `new Thread` returns, and the thread starts in ThreadRoot: Begin, the
-- function, Finish.
unfoldable pub fork_body : Kernel → ℕ → ℕ → List Statement → Result Kernel
fork_body k t f rest = elim (k.threads t) [
  | some _ ↦ fault
  | none ↦ do
    let code = begin ∷ k.functions f ++ finish ∷ []
    let new_thread = some (record { status = just_created; code = code })
    k1 ← ready_to_run (disabled (record k { threads = put k.threads t new_thread })) t
    go k1 (set_level k.level ∷ rest)
]

-- Lock::IsHeldByCurrentThread
unfoldable pub is_held : Kernel → ℕ → Bool
is_held k l = elim (k.locks l).lock_holder [ none ↦ false | some t ↦ t == k.current_thread ]

unfoldable pub set_holder : Kernel → ℕ → Option ℕ → Kernel
set_holder k l holder = record k {
  locks = put k.locks l (record (k.locks l) { lock_holder = holder });
}

-- Condition::Wait: the waiter is a semaphore of its own, whose number is not used again; `delete
-- waiter` at the end only gives its memory back.
unfoldable pub wait_body : Kernel → ℕ → ℕ → List Statement → Result Kernel
wait_body k c l rest = do
  assert (is_held k l)
  let waiter = k.num_semaphores
  queue ← append (k.conditions c) waiter
  go
      (record k {
        semaphores = put k.semaphores waiter (record { value = 0; queue = [] });
        num_semaphores = k.num_semaphores + 1;
        conditions = put k.conditions c queue;
      })
      (release l ∷ p_enter waiter ∷ acquire l ∷ rest)

unfoldable pub signal_body : Kernel → ℕ → ℕ → List Statement → Result Kernel
signal_body k c l rest = do
  assert (is_held k l)
  elim (k.conditions c) [
    | [] ↦ go k rest
    | waiter ∷ queue ↦
        go (record k { conditions = put k.conditions c queue }) (v_enter waiter ∷ rest)
  ]

-- Semaphore::P up to its loop, and Semaphore::V.
abbrev pub p_call : Kernel → ℕ → List Statement → Result Kernel
p_call k s rest = go (disabled k) (p_loop s ∷ set_level k.level ∷ rest)

abbrev pub v_call : Kernel → ℕ → List Statement → Result Kernel
v_call k s rest = do k1 ← v_body (disabled k) s; go k1 (set_level k.level ∷ rest)

abbrev pub acquire_body : Kernel → ℕ → List Statement → Result Kernel
acquire_body k l rest = go k (p_enter (k.locks l).semaphore ∷ hold l ∷ rest)

abbrev pub release_body : Kernel → ℕ → List Statement → Result Kernel
release_body k l rest = do
  assert (is_held k l)
  go (set_holder k l none) (v_enter (k.locks l).semaphore ∷ rest)

abbrev pub broadcast_body : Kernel → ℕ → ℕ → List Statement → Result Kernel
broadcast_body k c l rest = elim (k.conditions c) [
  | [] ↦ go k rest
  | _ ∷ _ ↦ go k (signal c l ∷ broadcast c l ∷ rest)
]

abbrev pub begin_body : Kernel → List Statement → Result Kernel
begin_body k rest = do k1 ← check_to_be_destroyed k; go k1 (set_level int_on ∷ rest)

abbrev pub finish_body : Kernel → List Statement → Result Kernel
finish_body k rest = sleep (disabled k) true rest

-- Run after SWITCH.
abbrev pub run_back : Kernel → List Statement → Result Kernel
run_back k rest = do assert (is_off k.level); k1 ← check_to_be_destroyed k; go k1 rest

unfoldable pub exec : Statement → List Statement → Kernel → Result Kernel
exec (p_enter s) rest k = p_call k s rest
exec (p_loop s) rest k = p_test k s rest
exec (v_enter s) rest k = v_call k s rest
exec (acquire l) rest k = acquire_body k l rest
exec (hold l) rest k = go (set_holder k l (some k.current_thread)) rest
exec (release l) rest k = release_body k l rest
exec (wait c l) rest k = wait_body k c l rest
exec (signal c l) rest k = signal_body k c l rest
exec (broadcast c l) rest k = broadcast_body k c l rest
exec (set_level now) rest k = change_level k now rest
exec one_tick rest k = tick_yield k rest
exec (set_status st) rest k = go (record k { status = st }) rest
exec (fork t f) rest k = fork_body k t f rest
exec begin rest k = begin_body k rest
exec yield rest k = yield_body k rest
exec finish rest k = finish_body k rest
exec halt rest k = ok (record k { halted = true })
exec (sleep_loop finishing) rest k = sleep_test k finishing rest
exec switched rest k = run_back k rest

-- A step of the running thread; a halted machine stays as it is.
unfoldable pub step : Kernel → Result Kernel
step k = if k.halted then ok k else (do
  thread ← thread_at k k.current_thread
  elim thread.code [ [] ↦ fault | statement ∷ rest ↦ exec statement rest k ])

unfoldable pub steps : ℕ → Kernel → Result Kernel
steps zero k = ok k
steps (suc n) k = do k1 ← step k; steps n k1
