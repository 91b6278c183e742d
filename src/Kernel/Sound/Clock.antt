-- ===== src/Kernel/Sound/Clock.antt =====
-- OneTick and Idle, which move the clock.
use nach_os.Base.{
  ◌+◌, ◌≡◌, inl, inr, refl, ◌∙◌, ap, Bool, true, false, ok, if_true, if_false, >>=-ok, Bool-cases,
}
use nach_os.Kernel.{
  IntStatus, MachineStatus, int_off, int_on, system_mode, idle_mode, Statistics, Kernel,
}
use nach_os.Kernel.Interrupt.{user_tick, system_tick, tick, idle}
use nach_os.Kernel.Sound.{IsOrdered}
use nach_os.Kernel.Mutex.Keeps.{Keeps}
use nach_os.Kernel.Sound.Handlers.{Kept}
use nach_os.Kernel.Sound.Check.{check_if_due_ok}

Kept-level :
    {k k' : Kernel}
    → Kept k k'
    → (level : IntStatus) → Kept (record k { level = level }) (record k' { level = level })
Kept-level a level = record {
  level = refl;
  in_handler = a.in_handler;
  current_thread = a.current_thread;
  functions = a.functions;
  locks = a.locks;
  conditions = a.conditions;
  num_semaphores = a.num_semaphores;
  timer = a.timer;
  code = a.code;
  now = a.now;
}

Kept-status :
    {k k' : Kernel}
    → Kept k k'
    → (status : MachineStatus) (halted : Bool)
    → Kept k (record k' { status = status; halted = halted })
Kept-status a status halted = record {
  level = a.level;
  in_handler = a.in_handler;
  current_thread = a.current_thread;
  functions = a.functions;
  locks = a.locks;
  conditions = a.conditions;
  num_semaphores = a.num_semaphores;
  timer = a.timer;
  code = a.code;
  now = a.now;
}

-- OneTick up to the test of yieldOnReturn.
pub tick_ok :
    (k : Kernel)
    → IsOrdered k
    → k.in_handler ≡ false
    → (k' : Kernel) × (tick k ≡ ok k')
      × IsOrdered k'
      × Kept (record k { stats = k'.stats; level = int_on }) k'
      × Keeps k k'
unfolding tick
tick_ok k o h =
    let ticked : Statistics = elim (k.status) [
      | system_mode ↦ record (k.stats) {
        total_ticks = k.stats.total_ticks + system_tick;
        system_ticks = k.stats.system_ticks + system_tick;
      }
      | _ ↦ record (k.stats) {
        total_ticks = k.stats.total_ticks + user_tick;
        user_ticks = k.stats.user_ticks + user_tick;
      }
    ] in
    let (found, k1, e, c) =
      check_if_due_ok false (record k { stats = ticked; level = int_off }) o refl h in
    (record k1 { level = int_on }, >>=-ok _ e, c.ordered, Kept-level c.kept int_on, c.keeps)

pub idle_ok :
    (k : Kernel)
    → IsOrdered k
    → k.level ≡ int_off
    → k.in_handler ≡ false
    → (k' : Kernel) × (idle k ≡ ok k')
      × IsOrdered k'
      × Kept (record k { stats = k'.stats; status = idle_mode }) k'
      × Keeps k k'
unfolding idle
idle_ok k o off h =
    let (found, k1, e, c) = check_if_due_ok true (record k { status = idle_mode }) o off h in
    elim (Bool-cases found) [
      | inl f ↦ (
        record k1 { status = system_mode },
        >>=-ok _ e ∙ ap ok (if_true _ _ f),
        c.ordered,
        Kept-status c.kept system_mode k1.halted,
        c.keeps,
      )
      | inr f ↦ (
        record k1 { halted = true },
        >>=-ok _ e ∙ ap ok (if_false _ _ f),
        c.ordered,
        Kept-status c.kept k1.status true,
        c.keeps,
      )
    ]
