-- ===== src/Kernel/Start.antt =====
-- Kernel::Initialize of threads/kernel.cc, as far as it concerns threads: the main thread runs, the
-- clock stands at 0, the timer is started and interrupts are enabled.
use nach_os.Base.{ℕ, Bool, false, none, some, List, [], ◌∷◌, ◌++◌, Result, ◌==◌, if◌then◌else◌}
use nach_os.Kernel.{
  int_off, int_on, system_mode, running, Statement, set_level, halt, Semaphore, Lock, Kernel,
}
use nach_os.Kernel.Interrupt.{set_interrupt}

-- Statistics, Interrupt, Scheduler and the main thread, before the Alarm. The tables hold the
-- semaphores, locks and functions of the program that is run.
unfoldable pub initial :
    Bool
    → (ℕ → ℕ)
    → (ℕ → List Statement)
    → (ℕ → Semaphore)
    → ℕ
    → (ℕ → Lock)
    → List Statement
    → Kernel
initial randomize random functions semaphores num_semaphores locks main = record {
  stats = record { total_ticks = 0; idle_ticks = 0; system_ticks = 0; user_ticks = 0 };
  level = int_off;
  pending = [];
  in_handler = false;
  yield_on_return = false;
  status = system_mode;
  timer = record { randomize = randomize; disable = false };
  random = random;
  draws = 0;
  functions = functions;
  current_thread = 0;
  ready_list = [];
  to_be_destroyed = none;
  threads = λ t.
      if t == 0
      then some (record { status = running; code = set_level int_on ∷ main ++ halt ∷ [] })
      else none;
  semaphores = semaphores;
  num_semaphores = num_semaphores;
  locks = locks;
  conditions = λ c. [];
  halted = false;
}

unfoldable pub initialize :
    Bool
    → (ℕ → ℕ)
    → (ℕ → List Statement)
    → (ℕ → Semaphore)
    → ℕ
    → (ℕ → Lock)
    → List Statement
    → Result Kernel
initialize randomize random functions semaphores num_semaphores locks main =
    set_interrupt (initial randomize random functions semaphores num_semaphores locks main)
