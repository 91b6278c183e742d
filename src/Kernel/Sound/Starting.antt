-- ===== src/Kernel/Sound/Starting.antt =====
-- The machine that Kernel::Initialize makes is in order, whatever calls the threads of the program
-- are made of.
use nach_os.Base.{
  ℕ, ◌≡◌, inl, refl, sym, subst, Bool, List, [], ◌∷◌, ◌++◌, ok, arith, All, Distinct,
}
use nach_os.Kernel.{
  IntStatus, int_on, Statement, p_enter, v_enter, acquire, release, wait, signal, broadcast, fork,
  yield, finish, halt, Semaphore, Lock, Kernel,
}
use nach_os.Kernel.Start.{initial, initialize}
use nach_os.Kernel.Interrupt.Queue.{IsSorted}
use nach_os.Kernel.Sound.{Continues, code_of, IsSound}
use nach_os.Kernel.Sound.Devices.{set_interrupt_ok}
use nach_os.Kernel.Sound.Sleeping.{IsSound-kept}
use nach_os.Kernel.Sound.Steps.{Succeeds}
use nach_os.Kernel.Sound.Stepping.{Asks, Reaches, Reaches-IsSound, step_lem}
use nach_os.Kernel.Step.{step}

-- What the code of a thread is made of: calls of the kernel's public routines.
abbrev pub IsCall : Statement → Type 0
IsCall (p_enter s) = Unit {0}
IsCall (v_enter s) = Unit {0}
IsCall (acquire l) = Unit {0}
IsCall (release l) = Unit {0}
IsCall (wait c l) = Unit {0}
IsCall (signal c l) = Unit {0}
IsCall (broadcast c l) = Unit {0}
IsCall (fork t f) = Unit {0}
IsCall yield = Unit {0}
IsCall _ = ⊥

pub Continues-calls :
    (end : Statement)
    → ((level : IntStatus) → Continues level (end ∷ []))
    → (level : IntStatus) (code : List Statement) → All IsCall code
    → Continues level (code ++ end ∷ [])
Continues-calls end h level [] a = h level
Continues-calls end h level (p_enter s ∷ code) a = Continues-calls end h level code a.1
Continues-calls end h level (v_enter s ∷ code) a = Continues-calls end h level code a.1
Continues-calls end h level (acquire l ∷ code) a = Continues-calls end h level code a.1
Continues-calls end h level (release l ∷ code) a = Continues-calls end h level code a.1
Continues-calls end h level (wait c l ∷ code) a = Continues-calls end h level code a.1
Continues-calls end h level (signal c l ∷ code) a = Continues-calls end h level code a.1
Continues-calls end h level (broadcast c l ∷ code) a = Continues-calls end h level code a.1
Continues-calls end h level (fork t f ∷ code) a = Continues-calls end h level code a.1
Continues-calls end h level (yield ∷ code) a = Continues-calls end h level code a.1
Continues-calls end h level (x ∷ code) a = absurd a.0

module _ (randomize : Bool) (random : ℕ → ℕ) (functions : ℕ → List Statement)
    (semaphores : ℕ → Semaphore) (num_semaphores : ℕ) (locks : ℕ → Lock) (main : List Statement)
    (calls : All IsCall main) (all_calls : (f : ℕ) → All IsCall (functions f))
    (no_waiters : (s : ℕ) → (semaphores s).queue ≡ []) where
  abbrev k : Kernel
  k = initial randomize random functions semaphores num_semaphores locks main

  pub initial-IsSound : IsSound k
  unfolding initial
  initial-IsSound = record {
    ordered = record {
      distinct_ready = tt;
      distinct_queue = λ s. subst Distinct (sym (no_waiters s)) tt;
      is_ready = λ t h. cc;
      is_blocked = λ s t h. ground (arith, no_waiters s);
      waits = λ s t h. ground (arith, no_waiters s);
      resumed = λ t h n d. ground arith;
      fits = λ t h n d. ground arith;
      destroyed_ne_current = cc;
      destroyed_status = λ d e. cc;
      destroyed_code = λ d e. cc;
      current_status = refl;
      destroys = inl refl;
    };
    level_fits = Continues-calls halt (λ l. refl) int_on main calls;
    no_handler = refl;
    functions_fit = λ f. Continues-calls finish (λ l. refl) int_on (functions f) (all_calls f);
    waiters = λ c s h. cc;
  }

  -- Initialize succeeds, and the machine is in order.
  pub initialize-IsSound :
      (k' : Kernel) × (initialize randomize random functions semaphores num_semaphores locks main
        ≡ ok k')
      × IsSound k'
      × IsSorted k'.pending
  unfolding initialize initial
  initialize-IsSound =
      let (k1, e, h) = set_interrupt_ok k initial-IsSound.ordered in
      (k1, e, IsSound-kept initial-IsSound h.ordered h.kept, h.sorted tt)

  -- A machine that runs a program of calls never fails an assertion of the kernel, uses a deleted
  -- thread or runs out of rounds: from Initialize on, in every machine that its steps lead to, the
  -- next step succeeds, leaves the threads in order and keeps each lock that only Acquire, Release
  -- and conditions use with one thread, if its thread holds the lock that it releases, waits or
  -- signals with, and the thread that it forks is new.
  pub program_lem :
      {k' k'' : Kernel}
      → initialize randomize random functions semaphores num_semaphores locks main ≡ ok k'
      → Reaches k' k''
      → Asks k'' (code_of (k''.threads k''.current_thread))
      → Succeeds k'' (step k'')
  program_lem {k'} {k''} e r a =
      let (k1, e1, s, sorted) = initialize-IsSound in
      let s' : IsSound k' = subst IsSound (cc) s in step_lem k'' (Reaches-IsSound s' r) a
