-- ===== src/Kernel/Tests.antt =====
-- Runs of the threads at concrete inputs, and the witnesses.
use nach_os.Base.{
  ◌+◌, ◌-◌, ◌<◌, ◌^◌, ℕ, zero, suc, Bool, true, false, none, List, [], ◌∷◌, ◌++◌, Result, ok, abort,
  fault, ◌>>=◌, ◌≡◌, ◌≢◌, refl, sym, ◌∙◌, arith, subst, ◌==◌, if◌then◌else◌,
}
use nach_os.Kernel.{Statement, p_enter, v_enter, acquire, hold, halt, fork, Kernel, Semaphore, Lock}
use nach_os.LinkedList.Sequence.{append}
use nach_os.Kernel.Scheduler.{
  set_thread_status, set_code, ready_to_run, find_next_to_run, run, check_to_be_destroyed,
  wake_first, v_body,
}
use nach_os.Kernel.Interrupt.{
  insert, schedule, yield_on_return, alarm, set_interrupt, call_back, more_due, call_due,
  handle_due, advance_clock, check_if_due, tick, idle,
}
use nach_os.Kernel.Step.{
  go, sleep, p_test, change_level, tick_yield, yield_body, sleep_test, fork_body, set_holder, exec,
  step, steps,
}
use nach_os.Kernel.Start.{initial, initialize}
use nach_os.Kernel.Sound.{code_of, IsSound}
use nach_os.Kernel.Sound.Handlers.{Within}
use nach_os.Kernel.Sound.Check.{Checked, check_if_due_lem}
use nach_os.Kernel.Sound.Steps.{Succeeds}
use nach_os.Kernel.Sound.Stepping.{start, later}
use nach_os.Kernel.Sound.Starting.{initialize-IsSound, program_lem}
use nach_os.Kernel.Mutex.Program.{lock_lem}

abbrev times : ℕ → List Statement → List Statement
times zero code = []
times (suc n) code = code ++ times n code

-- Semaphore::SelfTest with three rounds: `ping` is 1, and the tested semaphore 0.
abbrev self_test_helper : List Statement
self_test_helper = times 3 (p_enter 1 ∷ v_enter 0 ∷ [])

abbrev self_test : List Statement
self_test = fork 1 0 ∷ times 3 (v_enter 1 ∷ p_enter 0 ∷ [])

abbrev unlocked : ℕ → Lock
unlocked l = record { semaphore = 2; lock_holder = none }

abbrev no_value : ℕ → Semaphore
no_value s = record { value = if s == 2 then 1 else 0; queue = [] }

abbrev summary : Kernel → ℕ × ℕ × ℕ × ℕ × List ℕ × Bool
summary k = (
  k.stats.total_ticks,
  k.current_thread,
  (k.semaphores 0).value,
  (k.semaphores 1).value,
  k.ready_list,
  k.halted,
)

abbrev start_up : Result Kernel
start_up = initialize false (λ n. n) (λ f. self_test_helper) no_value 3 unlocked self_test

abbrev kernel_or : Kernel → Result Kernel → Kernel
kernel_or k (ok k') = k'
kernel_or k abort = k
kernel_or k fault = k

abbrev booted : Kernel
booted =
    kernel_or (initial false (λ n. n) (λ f. self_test_helper) no_value 3 unlocked self_test)
      start_up

ran : ℕ → Result (ℕ × ℕ × ℕ × ℕ × List ℕ × Bool)
ran n = do k ← start_up; k1 ← steps n k; ok (summary k1)

ran80 : Result (ℕ × ℕ × ℕ × ℕ × List ℕ × Bool)
ran80 = ran 80

-- The main thread comes through the test and halts the machine at tick 160.
ran80_lem : ran80 ≡ ok (160, 0, 0, 0, [], true)
unfolding ran80 ran steps step exec p_test sleep change_level tick_yield yield_body sleep_test
    fork_body go set_code set_thread_status ready_to_run find_next_to_run run check_to_be_destroyed
    v_body wake_first tick idle check_if_due handle_due call_due more_due call_back alarm
    yield_on_return set_interrupt schedule insert advance_clock append initialize initial
ran80_lem = refl

start_up_boots : start_up ≡ ok booted
unfolding initialize initial set_interrupt schedule insert
start_up_boots = refl

booted-IsSound : IsSound booted
booted-IsSound =
    let (k, e, s, sorted) =
      initialize-IsSound false (λ n. n) (λ f. self_test_helper) no_value 3 unlocked self_test
        (tt, (tt, (tt, (tt, (tt, (tt, (tt, tt))))))) (λ f. (tt, (tt, (tt, (tt, (tt, (tt, tt)))))))
        (λ s. refl) in
    let same : ok k ≡ ok booted = sym e ∙ start_up_boots in subst IsSound (cc) s

program_lem_example :
    Succeeds (kernel_or booted (step booted)) (step (kernel_or booted (step booted)))
unfolding initialize initial set_interrupt schedule insert step exec change_level go set_code
program_lem_example =
    program_lem false (λ n. n) (λ f. self_test_helper) no_value 3 unlocked self_test
      (tt, (tt, (tt, (tt, (tt, (tt, (tt, tt))))))) (λ f. (tt, (tt, (tt, (tt, (tt, (tt, tt)))))))
      (λ s. refl) {k' = booted} {k'' = kernel_or booted (step booted)} start_up_boots
      (later start tt refl) tt

check_if_due_lem_example :
    (found : Bool) × (k : Kernel) × (check_if_due true booted ≡ ok (found, k))
    × Checked true booted found k
    × (k.stats.total_ticks + 200 < 2 ^ 31)
    × Within (2 ^ 31 - 1) k.pending
unfolding initialize initial set_interrupt schedule insert
check_if_due_lem_example =
    check_if_due_lem true booted booted-IsSound.ordered refl refl (omega arith) (omega arith, tt)

-- A program whose only thread acquires lock 0, which has semaphore 0.
abbrev one_lock : ℕ → Lock
one_lock l = record { semaphore = if l == 0 then 0 else 1; lock_holder = none }

abbrev one_value : ℕ → Semaphore
one_value s = record { value = 1; queue = [] }

abbrev lock_boot : Result Kernel
lock_boot = initialize false (λ n. n) (λ f. []) one_value 1 one_lock (acquire 0 ∷ [])

abbrev acquiring : ℕ → Kernel
acquiring zero =
    kernel_or (initial false (λ n. n) (λ f. []) one_value 1 one_lock (acquire 0 ∷ [])) lock_boot
acquiring (suc n) = kernel_or (acquiring n) (step (acquiring n))

lock_lem_example :
    (((acquiring 8).semaphores 0).value ≡ 0)
    × (code_of ((acquiring 8).threads 0) ≢ hold 0 ∷ halt ∷ [])
unfolding initialize initial set_interrupt schedule insert step exec p_test change_level tick_yield
    tick check_if_due set_holder go set_code
lock_lem_example =
    lock_lem false (λ n. n) (λ f. []) one_value 1 one_lock (acquire 0 ∷ []) (tt, tt) (λ f. tt)
      (λ s. refl) 0 0
      (record {
        main_outside = refl;
        functions_outside = λ f. refl;
        made = ground arith;
        its_semaphore = refl;
        others = λ n h. ground arith;
        free = refl;
        no_holder = refl;
      })
      {k' = acquiring 0} {k = acquiring 8} 0 0 (halt ∷ []) refl
      (later
        (later
          (later
            (later (later (later (later (later start tt refl) tt refl) tt refl) tt refl) tt refl) tt
            refl)
          tt refl)
        tt refl)
      refl
