-- ===== src/Kernel/Sound/Handlers.antt =====
-- What an interrupt handler leaves alone, and the V of a device, which keeps the threads in order.
use nach_os.Base.{
  ◌≤◌, ◌*◌, ne→==, if◌then◌else◌, All, ◌==◌, ==_iff, inl, inr, ℕ, ◌+◌, ◌≡◌, inl, inr, refl, sym,
  ◌∙◌, ap, subst, Bool, some, Option-cases, List, [], ◌∷◌, ◌++◌, ok, arith, if_false, Bool-cases,
}
use nach_os.LinkedList.Sequence.{append}
use nach_os.Kernel.{
  int_off, ready, timer, device, CallBackObj, PendingInterrupt, Semaphore, Kernel, put,
}
use nach_os.Kernel.Scheduler.{set_thread_status, ready_to_run, wake_first, v_body}
use nach_os.Kernel.Interrupt.{timer_ticks}
use nach_os.Kernel.Interrupt.Queue.{IsSorted, due}
use nach_os.Kernel.Mutex.{Spares, Excludes, role}
use nach_os.Kernel.Mutex.Keeps.{Private-same, Excludes-same}
use nach_os.Kernel.Sound.{IsOrdered, code_of}
use nach_os.Kernel.Sound.Moves.{code_of-put, first-not-ready, Ordered-wake, Ordered-value}

-- What is left alone while handlers run.
pub record Kept (k k' : Kernel) : Type 0 where
  pub level : k'.level ≡ k.level
  pub in_handler : k'.in_handler ≡ k.in_handler
  pub current_thread : k'.current_thread ≡ k.current_thread
  pub functions : k'.functions ≡ k.functions
  pub locks : k'.locks ≡ k.locks
  pub conditions : k'.conditions ≡ k.conditions
  pub num_semaphores : k'.num_semaphores ≡ k.num_semaphores
  pub timer : k'.timer ≡ k.timer
  pub code : (t : ℕ) → code_of (k'.threads t) ≡ code_of (k.threads t)
  pub now : k'.stats.total_ticks ≡ k.stats.total_ticks

-- V adds one to the value of the semaphore of a device.
abbrev pub given : CallBackObj → ℕ → ℕ → ℕ
given timer s value = value
given (device n) s value = if n == s then value + 1 else value

-- Interrupts that a handler schedules are soon: if all times are at most `n`, they stay so.
abbrev pub Within : ℕ → List PendingInterrupt → Type 0
Within n pending = All (λ x. x.when ≤ n) pending

-- The effect of a call of `object`.
pub record Handled (object : CallBackObj) (k k' : Kernel) : Type 0 where
  pub kept : Kept k k'
  pub ordered : IsOrdered k'
  pub due_same : due k.stats.total_ticks k'.pending ≡ due k.stats.total_ticks k.pending
  pub sorted : IsSorted k.pending → IsSorted k'.pending
  pub values : (s : ℕ) → (k'.semaphores s).value ≡ given object s (k.semaphores s).value
  pub spares :
      (s : ℕ)
      → All (λ x. Spares s x.call_on_interrupt) k.pending
      → All (λ x. Spares s x.call_on_interrupt) k'.pending
  pub within :
      (n : ℕ) → k.stats.total_ticks + timer_ticks * 2 ≤ n → Within n k.pending → Within n k'.pending

pub Kept-refl : (k : Kernel) → Kept k k
Kept-refl k = record {
  level = refl;
  in_handler = refl;
  current_thread = refl;
  functions = refl;
  locks = refl;
  conditions = refl;
  num_semaphores = refl;
  timer = refl;
  code = λ t. refl;
  now = refl;
}

pub Kept-trans : {k k' k'' : Kernel} → Kept k k' → Kept k' k'' → Kept k k''
Kept-trans a b = record {
  level = b.level ∙ a.level;
  in_handler = b.in_handler ∙ a.in_handler;
  current_thread = b.current_thread ∙ a.current_thread;
  functions = b.functions ∙ a.functions;
  locks = b.locks ∙ a.locks;
  conditions = b.conditions ∙ a.conditions;
  num_semaphores = b.num_semaphores ∙ a.num_semaphores;
  timer = b.timer ∙ a.timer;
  code = λ t. b.code t ∙ a.code t;
  now = b.now ∙ a.now;
}

-- The other fields are free.
pub Kept-update :
    (k : Kernel) (semaphores : ℕ → Semaphore) (pending : List PendingInterrupt) (draws : ℕ)
    (yields : Bool)
    → Kept k (record k {
      semaphores = semaphores;
      pending = pending;
      draws = draws;
      yield_on_return = yields;
    })
Kept-update k semaphores pending draws yields = record {
  level = refl;
  in_handler = refl;
  current_thread = refl;
  functions = refl;
  locks = refl;
  conditions = refl;
  num_semaphores = refl;
  timer = refl;
  code = λ t. refl;
  now = refl;
}

pub Handled-refl : {k : Kernel} → IsOrdered k → Handled timer k k
Handled-refl {k} o = record {
  kept = Kept-refl k;
  ordered = o;
  due_same = refl;
  sorted = λ h. h;
  values = λ s. refl;
  spares = λ s h. h;
  within = λ n l h. h;
}

pub Handled-trans :
    {k k' k'' : Kernel} → Handled timer k k' → Handled timer k' k'' → Handled timer k k''
Handled-trans {k} {k'} {k''} a b = record {
  kept = Kept-trans a.kept b.kept;
  ordered = b.ordered;
  due_same = subst (λ n. due n k''.pending ≡ due n k'.pending) a.kept.now b.due_same ∙ a.due_same;
  sorted = λ h. b.sorted (a.sorted h);
  values = λ s. b.values s ∙ a.values s;
  spares = λ s h. b.spares s (a.spares s h);
  within = λ n l h.
      b.within n (subst (λ t. t + timer_ticks * 2 ≤ n) (sym a.kept.now) l) (a.within n l h);
}

-- ReadyToRun of the first waiting thread.
wake_first_ok :
    (k : Kernel) (s : ℕ) (queue : List ℕ)
    → IsOrdered k
    → k.level ≡ int_off
    → (k.semaphores s).queue ≡ queue
    → (k' : Kernel) × (wake_first k s queue ≡ ok k')
      × Kept k k'
      × IsOrdered k'
      × (k'.pending ≡ k.pending)
      × ((m : ℕ) → (k'.semaphores m).value ≡ (k.semaphores m).value)
unfolding wake_first ready_to_run set_thread_status append
wake_first_ok k s [] o off q = (k, refl, Kept-refl k, o, refl, λ m. refl)
wake_first_ok k s (t ∷ queue) o off q = elim (Option-cases (k.threads t)) [
  | inl e ↦ absurd (ground (arith, o.is_blocked s t))
  | inr (c, e) ↦ (
    record k {
      threads = put k.threads t (some (record c { status = ready }));
      ready_list = k.ready_list ++ t ∷ [];
      semaphores = put k.semaphores s (record (k.semaphores s) { queue = queue });
    },
    rw (off, e, first-not-ready o s t queue c q e) refl,
    record {
      level = refl;
      in_handler = refl;
      current_thread = refl;
      functions = refl;
      locks = refl;
      conditions = refl;
      num_semaphores = refl;
      timer = refl;
      code = λ t'. code_of-put k.threads t c ready t' e;
      now = refl;
    },
    Ordered-wake o s t queue c q e,
    refl,
    λ m. elim (Bool-cases (s == m)) [
      | inl same ↦ rw same (ap (λ (i : ℕ). (k.semaphores i).value) ((==_iff s m).0 same))
      | inr other ↦ rw other
    ],
  )
]

pub v_body_ok :
    (k : Kernel) (s : ℕ)
    → IsOrdered k
    → k.level ≡ int_off
    → (k' : Kernel) × (v_body k s ≡ ok k') × Handled (device s) k k'
unfolding v_body
v_body_ok k s o off =
    let (k1, e, kept, o1, p, values) = wake_first_ok k s (k.semaphores s).queue o off refl in
    (
      record k1 {
        semaphores =
            put k1.semaphores s (record (k1.semaphores s) { value = (k1.semaphores s).value + 1 });
      },
      rw e refl,
      record {
        kept = Kept-trans kept (Kept-update k1 _ k1.pending k1.draws k1.yield_on_return);
        ordered = Ordered-value o1 s ((k1.semaphores s).value + 1);
        due_same = ap (due k.stats.total_ticks) p;
        sorted = λ h. subst IsSorted (sym p) h;
        values = λ m. ground (arith, values m, ==_iff s m);
        spares = λ m h. subst (All (λ x. Spares m x.call_on_interrupt)) (sym p) h;
        within = λ n l h. subst (Within n) (sym p) h;
      },
    )

-- A handler of another device leaves a lock alone.
pub Handled-Excludes :
    {object : CallBackObj} {k k' : Kernel} (l s : ℕ)
    → Handled object k k'
    → Spares s object
    → Excludes l s k
    → Excludes l s k'
Handled-Excludes {object} {k} {k'} l s h spared e =
    Excludes-same k k' e
      (Private-same e.0 h.kept.functions (h.spares s e.0.spared) h.kept.conditions
        h.kept.num_semaphores h.kept.locks)
      (λ t. ap (role l s) (h.kept.code t)) (h.values s ∙ given_same object spared)
      (ap (λ g. (g l).lock_holder) h.kept.locks)
  where
    given_same :
        (o : CallBackObj) → Spares s o → given o s (k.semaphores s).value ≡ (k.semaphores s).value
    given_same timer sp = refl
    given_same (device n) sp = if_false _ _ (ne→== n s sp)
