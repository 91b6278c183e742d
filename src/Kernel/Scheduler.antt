-- ===== src/Kernel/Scheduler.antt =====
-- threads/scheduler.cc, and Semaphore::V of threads/synch.cc between its calls of SetLevel.
use nach_os.Base.{
  ℕ, ◌+◌, Bool, true, false, not, ◌||◌, Option, none, some, List, [], ◌∷◌, Result, ok, fault, ◌>>=◌,
  ◌>>◌, assert, ◌==◌, if◌then◌else◌,
}
use nach_os.LinkedList.Sequence.{append}
use nach_os.Kernel.{
  IntStatus, int_off, int_on, ThreadStatus, running, ready, Statement, switched, Thread, Kernel,
  put,
}

abbrev pub is_off : IntStatus → Bool
is_off int_off = true
is_off int_on = false

-- The thread that a pointer leads to, which faults once the thread is deleted.
abbrev pub thread_at : Kernel → ℕ → Result Thread
thread_at k t = elim (k.threads t) [ none ↦ fault | some thread ↦ ok thread ]

-- Thread::setStatus
unfoldable pub set_thread_status : Kernel → ℕ → ThreadStatus → Result Kernel
set_thread_status k t st = do
  thread ← thread_at k t
  ok (record k { threads = put k.threads t (some (record thread { status = st })) })

-- What thread `t` has to run, which stands for its machine state and its stack.
unfoldable pub set_code : Kernel → ℕ → List Statement → Result Kernel
set_code k t code = do
  thread ← thread_at k t
  ok (record k { threads = put k.threads t (some (record thread { code = code })) })

unfoldable pub ready_to_run : Kernel → ℕ → Result Kernel
ready_to_run k t = do
  assert (is_off k.level)
  k1 ← set_thread_status k t ready
  ready_list ← append k1.ready_list t
  ok (record k1 { ready_list = ready_list })

unfoldable pub find_next_to_run : Kernel → Result (Option ℕ × Kernel)
find_next_to_run k = do
  assert (is_off k.level)
  elim (k.ready_list) [ [] ↦ ok (none, k) | t ∷ rest ↦ ok (some t, record k { ready_list = rest }) ]

abbrev pub is_null : Option ℕ → Bool
is_null none = true
is_null (some t) = false

-- Run up to SWITCH: `rest` is what the old thread has to run after this call.
unfoldable pub run : Kernel → ℕ → Bool → List Statement → Result Kernel
run k next finishing rest = do
  let old = k.current_thread
  assert (is_off k.level)
  assert (not finishing || is_null k.to_be_destroyed)
  let k1 = record k {
    to_be_destroyed = if finishing then some old else k.to_be_destroyed;
    current_thread = next;
  }
  k2 ← set_code k1 old (switched ∷ rest)
  set_thread_status k2 next running

unfoldable pub check_to_be_destroyed : Kernel → Result Kernel
check_to_be_destroyed k = elim (k.to_be_destroyed) [
  | none ↦ ok k
  | some t ↦ do
    assert (not (t == k.current_thread))
    ok (record k { threads = put k.threads t none; to_be_destroyed = none })
]

-- if (!queue->IsEmpty()) ReadyToRun(queue->RemoveFront());
unfoldable pub wake_first : Kernel → ℕ → List ℕ → Result Kernel
wake_first k s [] = ok k
wake_first k s (t ∷ queue) =
    ready_to_run
      (record k { semaphores = put k.semaphores s (record (k.semaphores s) { queue = queue }) }) t

-- Semaphore::V, with interrupts off.
unfoldable pub v_body : Kernel → ℕ → Result Kernel
v_body k s = do
  k1 ← wake_first k s (k.semaphores s).queue
  ok (record k1 {
    semaphores =
        put k1.semaphores s (record (k1.semaphores s) { value = (k1.semaphores s).value + 1 });
  })
