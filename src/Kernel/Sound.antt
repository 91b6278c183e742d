-- ===== src/Kernel/Sound.antt =====
-- When the threads of the kernel are in order: which list a thread stands in, which status it has
-- and where it goes on fit together, and interrupts are off exactly where the code needs them off.
pub mod Moves
pub mod Switch
pub mod Handlers
pub mod Devices
pub mod Due
pub mod Check
pub mod Clock
pub mod Steps
pub mod Calls
pub mod Switching
pub mod Sleeping
pub mod Destroying
pub mod Resuming
pub mod Stepping
pub mod Starting
use nach_os.Base.{
  ℕ, Bool, true, false, Option, none, some, List, [], ◌∷◌, ◌++◌, ◌≡◌, ◌≢◌, ◌⊎◌, contains, Distinct,
  ◌<◌,
}
use nach_os.Kernel.{
  IntStatus, int_off, int_on, ThreadStatus, running, ready, blocked, Statement, p_enter, p_loop,
  v_enter, acquire, hold, release, wait, signal, broadcast, set_level, one_tick, set_status, fork,
  begin, yield, finish, halt, sleep_loop, switched, Thread, Semaphore, Kernel,
}

-- Run from `level`, each statement finds the interrupts as it needs them, and the code ends in
-- Finish.
abbrev pub Continues : IntStatus → List Statement → Type 0
Continues level [] = ⊥
Continues level (p_enter s ∷ rest) = Continues level rest
Continues level (p_loop s ∷ rest) = (level ≡ int_off) × Continues int_off rest
Continues level (v_enter s ∷ rest) = Continues level rest
Continues level (acquire l ∷ rest) = Continues level rest
Continues level (hold l ∷ rest) = Continues level rest
Continues level (release l ∷ rest) = Continues level rest
Continues level (wait c l ∷ rest) = Continues level rest
Continues level (signal c l ∷ rest) = Continues level rest
Continues level (broadcast c l ∷ rest) = Continues level rest
Continues level (set_level now ∷ rest) = Continues now rest
Continues level (one_tick ∷ rest) = (level ≡ int_on) × Continues int_on rest
Continues level (set_status st ∷ rest) = Continues level rest
Continues level (fork t f ∷ rest) = Continues level rest
Continues level (begin ∷ rest) = (level ≡ int_off) × Continues int_on rest
Continues level (yield ∷ rest) = Continues level rest
Continues level (finish ∷ rest) = rest ≡ []
Continues level (halt ∷ rest) = rest ≡ []
Continues level (sleep_loop finishing ∷ rest) = ⊥
Continues level (switched ∷ rest) = (level ≡ int_off) × Continues int_off rest

-- As `Continues`, and a thread may be in the loop of Sleep.
abbrev pub Fits : IntStatus → List Statement → Type 0
Fits level (sleep_loop true ∷ rest) = (level ≡ int_off) × (rest ≡ [])
Fits level (sleep_loop false ∷ rest) = (level ≡ int_off) × Continues int_off rest
Fits level code = Continues level code

-- The thread has given up the processor, or has not started: it deletes a finished thread first.
abbrev pub IsResumed : List Statement → Type 0
IsResumed (switched ∷ rest) = Unit {0}
IsResumed (begin ∷ rest) = Unit {0}
IsResumed _ = ⊥

-- The semaphore in whose P the thread sleeps.
abbrev pub waits_on : List Statement → Option ℕ
waits_on (sleep_loop false ∷ p_loop s ∷ rest) = some s
waits_on (switched ∷ p_loop s ∷ rest) = some s
waits_on _ = none

-- The status of the current thread: it runs, but in the loop of Sleep.
abbrev pub StatusFits : List Statement → Option ThreadStatus → Type 0
StatusFits (sleep_loop true ∷ rest) st = st ≡ some blocked
StatusFits (sleep_loop false ∷ rest) st = (st ≡ some blocked) ⊎ (st ≡ some ready)
StatusFits _ st = st ≡ some running

abbrev pub status_of : Option Thread → Option ThreadStatus
status_of none = none
status_of (some thread) = some thread.status

abbrev pub code_of : Option Thread → List Statement
code_of none = []
code_of (some thread) = thread.code

-- The threads in order, stated of the fields that it is about.
pub record Ordered (current : ℕ) (ready_list : List ℕ) (destroyed : Option ℕ)
    (threads : ℕ → Option Thread) (semaphores : ℕ → Semaphore) : Type 0 where
  pub distinct_ready : Distinct ready_list
  pub distinct_queue : (s : ℕ) → Distinct (semaphores s).queue
  pub is_ready : (t : ℕ) → contains ready_list t ≡ true → status_of (threads t) ≡ some ready
  pub is_blocked :
      (s t : ℕ) → contains (semaphores s).queue t ≡ true → status_of (threads t) ≡ some blocked
  pub waits :
      (s t : ℕ) → contains (semaphores s).queue t ≡ true → waits_on (code_of (threads t)) ≡ some s
  pub resumed :
      (t : ℕ)
      → t ≢ current
      → threads t ≢ none
      → destroyed ≢ some t
      → IsResumed (code_of (threads t))
  pub fits :
      (t : ℕ)
      → t ≢ current
      → threads t ≢ none
      → destroyed ≢ some t
      → Fits int_off (code_of (threads t))
  pub destroyed_ne_current : destroyed ≢ some current
  pub destroyed_status : (d : ℕ) → destroyed ≡ some d → status_of (threads d) ≡ some blocked
  pub destroyed_code : (d : ℕ) → destroyed ≡ some d → code_of (threads d) ≡ switched ∷ []
  pub current_status : StatusFits (code_of (threads current)) (status_of (threads current))
  pub destroys : (destroyed ≡ none) ⊎ IsResumed (code_of (threads current))

abbrev pub IsOrdered : Kernel → Type 0
IsOrdered k = Ordered k.current_thread k.ready_list k.to_be_destroyed k.threads k.semaphores

-- What holds between two steps.
pub record IsSound (k : Kernel) : Type 0 where
  pub ordered : IsOrdered k
  pub level_fits : Fits k.level (code_of (k.threads k.current_thread))
  pub no_handler : k.in_handler ≡ false
  pub functions_fit : (f : ℕ) → Continues int_on (k.functions f ++ finish ∷ [])
  pub waiters : (c s : ℕ) → contains (k.conditions c) s ≡ true → s < k.num_semaphores
