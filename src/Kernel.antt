-- ===== src/Kernel.antt =====
-- The state of the kernel's threads: machine/stats.h, machine/interrupt.h, threads/thread.h,
-- threads/scheduler.h, threads/synch.h and machine/timer.h, as one record. An object is named by
-- its number, and a thread's stack is the list of the statements that it has still to run.
pub mod Scheduler
pub mod Interrupt
pub mod Step
pub mod Start
pub mod Sound
pub mod Mutex
mod Tests
use nach_os.Base.{ℕ, Bool, Option, List, ◌==◌, if◌then◌else◌}

-- enum IntStatus
pub data IntStatus : Type 0 where
  int_off : IntStatus
  int_on : IntStatus

-- enum MachineStatus
pub data MachineStatus : Type 0 where
  idle_mode : MachineStatus
  system_mode : MachineStatus
  user_mode : MachineStatus

-- enum IntType
pub data IntType : Type 0 where
  timer_int : IntType
  disk_int : IntType
  console_write_int : IntType
  console_read_int : IntType
  network_send_int : IntType
  network_recv_int : IntType

-- enum ThreadStatus
pub data ThreadStatus : Type 0 where
  just_created : ThreadStatus
  running : ThreadStatus
  ready : ThreadStatus
  blocked : ThreadStatus

-- The objects that an interrupt calls: the timer, or a device whose handler is `semaphore->V()`.
pub data CallBackObj : Type 0 where
  timer : CallBackObj
  device : ℕ → CallBackObj

pub record PendingInterrupt : Type 0 where
  pub call_on_interrupt : CallBackObj
  pub when : ℕ
  pub type : IntType

-- What a thread has still to run: a call of a kernel routine, or the rest of one.
pub data Statement : Type 0 where
  -- Semaphore::P, and its loop after SetLevel
  p_enter : ℕ → Statement
  p_loop : ℕ → Statement
  v_enter : ℕ → Statement
  -- Lock::Acquire, and its second statement; Lock::Release
  acquire : ℕ → Statement
  hold : ℕ → Statement
  release : ℕ → Statement
  -- Condition::Wait, Signal and Broadcast
  wait : ℕ → ℕ → Statement
  signal : ℕ → ℕ → Statement
  broadcast : ℕ → ℕ → Statement
  -- Interrupt::SetLevel, OneTick, and the assignment `status = oldStatus` of OneTick
  set_level : IntStatus → Statement
  one_tick : Statement
  set_status : MachineStatus → Statement
  -- Thread::Fork of a function in a new thread, Begin, Yield, Finish, and the loop of Sleep
  fork : ℕ → ℕ → Statement
  begin : Statement
  yield : Statement
  finish : Statement
  sleep_loop : Bool → Statement
  -- Interrupt::Halt, with which main ends
  halt : Statement
  -- Scheduler::Run after SWITCH
  switched : Statement

pub record Thread : Type 0 where
  pub status : ThreadStatus
  pub code : List Statement

pub record Semaphore : Type 0 where
  pub value : ℕ
  pub queue : List ℕ

pub record Lock : Type 0 where
  pub semaphore : ℕ
  pub lock_holder : Option ℕ

pub record Timer : Type 0 where
  pub randomize : Bool
  pub disable : Bool

-- Natural numbers, where the code has ints that wrap.
pub record Statistics : Type 0 where
  pub total_ticks : ℕ
  pub idle_ticks : ℕ
  pub system_ticks : ℕ
  pub user_ticks : ℕ

-- `functions` is the code that a function pointer leads to, and `draws` counts the numbers that
-- RandomNumber has given. A deleted thread is `none`.
pub record Kernel : Type 0 where
  pub stats : Statistics
  pub level : IntStatus
  pub pending : List PendingInterrupt
  pub in_handler : Bool
  pub yield_on_return : Bool
  pub status : MachineStatus
  pub timer : Timer
  pub random : ℕ → ℕ
  pub draws : ℕ
  pub functions : ℕ → List Statement
  pub current_thread : ℕ
  pub ready_list : List ℕ
  pub to_be_destroyed : Option ℕ
  pub threads : ℕ → Option Thread
  pub semaphores : ℕ → Semaphore
  pub num_semaphores : ℕ
  pub locks : ℕ → Lock
  pub conditions : ℕ → List ℕ
  pub halted : Bool

-- An object in a table is written.
abbrev pub put {ℓ} : {A : Type ℓ} → (ℕ → A) → ℕ → A → ℕ → A
put f i a j = if i == j then a else f j
