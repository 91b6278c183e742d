-- ===== src/Kernel/Sound/Calls.antt =====
-- threads/synch.cc: the statements that do not switch threads.
use nach_os.Base.{
  contains-append, ℕ, ◌+◌, ◌≡◌, inl, inr, refl, ◌∙◌, ap, true, false, not, ◌&&◌, ◌||◌, none, some,
  List, [], ◌∷◌, ◌++◌, List-cases, ok, assert, arith, ==_iff, if◌then◌else◌, >>=-ok, Bool-cases,
  contains,
}
use nach_os.LinkedList.Sequence.{append}
use nach_os.Kernel.{
  IntStatus, MachineStatus, int_off, int_on, Statement, p_enter, v_enter, acquire, hold, release,
  wait, signal, broadcast, set_level, one_tick, set_status, Thread, Kernel, put,
}
use nach_os.Kernel.Scheduler.{is_off}
use nach_os.Kernel.Step.{disabled, change_level, is_held, set_holder, wait_body, signal_body, exec}
use nach_os.Kernel.Sound.{Continues, Fits, code_of, IsSound}
use nach_os.Kernel.Sound.Moves.{Ordered-new_semaphore}
use nach_os.Kernel.Sound.Handlers.{v_body_ok}
use nach_os.Kernel.Mutex.{role}
use nach_os.Kernel.Mutex.Calls.{
  acquire-Keeps, hold-Keeps, release-Keeps, v_enter-Keeps, signal-Keeps, wait-Keeps,
}
use nach_os.Kernel.Sound.Steps.{
  gone-Excludes, Succeeds, Runs, found_Runs, found_Fits, go-Succeeds, Runs-update, Runs-disabled,
  Runs-kept,
}

Runs-signal :
    {k : Kernel} {c : Thread}
    → Runs k c
    → (n waiter : ℕ) (queue : List ℕ) → k.conditions n ≡ waiter ∷ queue
    → Runs (record k { conditions = put k.conditions n queue }) c
Runs-signal r n waiter queue q = record {
  found = r.found;
  status = r.status;
  not_destroyed = r.not_destroyed;
  ordered = r.ordered;
  no_handler = r.no_handler;
  functions_fit = r.functions_fit;
  waiters = λ c s m. ground (arith, r.waiters c s, ==_iff n c);
}

Runs-wait :
    {k : Kernel} {c : Thread}
    → Runs k c
    → (n : ℕ)
    → Runs
        (record k {
          semaphores = put k.semaphores k.num_semaphores (record { value = 0; queue = [] });
          num_semaphores = k.num_semaphores + 1;
          conditions = put k.conditions n (k.conditions n ++ k.num_semaphores ∷ []);
        })
        c
Runs-wait {k} r n = record {
  found = r.found;
  status = r.status;
  not_destroyed = r.not_destroyed;
  ordered = Ordered-new_semaphore r.ordered k.num_semaphores;
  no_handler = r.no_handler;
  functions_fit = r.functions_fit;
  waiters = λ c s m.
      ground
        (arith, r.waiters c s, ==_iff n c, contains-append (k.conditions n) k.num_semaphores s);
}

module _ (k : Kernel) (rest : List Statement) (s : IsSound k) where
  pub p_enter-Succeeds :
      (n : ℕ)
      → code_of (k.threads k.current_thread) ≡ p_enter n ∷ rest
      → Succeeds k (exec (p_enter n) rest k)
  unfolding exec
  p_enter-Succeeds n e =
      let (c, r, ec) = found_Runs k (p_enter n) rest s e (λ st h. h) (λ h. h) in
      let f : Fits k.level (p_enter n ∷ rest) = found_Fits k (p_enter n) rest s e in
      go-Succeeds k (disabled k) c _ (Runs-disabled r) (refl, f)
        (λ l m x. gone-Excludes (disabled k) c _ l m e refl x)

  pub v_enter-Succeeds :
      (n : ℕ)
      → code_of (k.threads k.current_thread) ≡ v_enter n ∷ rest
      → Succeeds k (exec (v_enter n) rest k)
  unfolding exec
  v_enter-Succeeds n e =
      let f : Fits k.level (v_enter n ∷ rest) = found_Fits k (v_enter n) rest s e in
      let (k1, e1, h) = v_body_ok (disabled k) n s.ordered refl in
      let (c, r, ec) =
        Runs-kept (v_enter n ∷ rest) h.kept h.ordered e (λ st h. h) (λ h. h) s.no_handler
          s.functions_fit s.waiters in
      let (k2, e2, s2, m2) =
        go-Succeeds k k1 c (set_level k.level ∷ rest) r f (v_enter-Keeps k c rest n k1 e h) in
      (k2, >>=-ok _ e1 ∙ e2, s2, m2)

  pub acquire-Succeeds :
      (l : ℕ)
      → code_of (k.threads k.current_thread) ≡ acquire l ∷ rest
      → Succeeds k (exec (acquire l) rest k)
  unfolding exec
  acquire-Succeeds l e =
      let (c, r, ec) = found_Runs k (acquire l) rest s e (λ st h. h) (λ h. h) in
      let f : Fits k.level (acquire l ∷ rest) = found_Fits k (acquire l) rest s e in
      go-Succeeds k k c _ r f (acquire-Keeps k c rest l e)

  pub hold-Succeeds :
      (l : ℕ)
      → code_of (k.threads k.current_thread) ≡ hold l ∷ rest
      → Succeeds k (exec (hold l) rest k)
  unfolding exec set_holder
  hold-Succeeds l e =
      let (c, r, ec) = found_Runs k (hold l) rest s e (λ st h. h) (λ h. h) in
      let f : Fits k.level (hold l ∷ rest) = found_Fits k (hold l) rest s e in
      go-Succeeds k (set_holder k l (some k.current_thread)) c rest
        (Runs-update r k.level k.status k.yield_on_return _) f (hold-Keeps k c rest l e)

  pub release-Succeeds :
      (l : ℕ)
      → code_of (k.threads k.current_thread) ≡ release l ∷ rest
      → is_held k l ≡ true
      → Succeeds k (exec (release l) rest k)
  unfolding exec set_holder
  release-Succeeds l e held =
      let (c, r, ec) = found_Runs k (release l) rest s e (λ st h. h) (λ h. h) in
      let f : Fits k.level (release l ∷ rest) = found_Fits k (release l) rest s e in
      let (k1, e1, s1, m1) =
        go-Succeeds k (set_holder k l none) c (v_enter (k.locks l).semaphore ∷ rest)
          (Runs-update r k.level k.status k.yield_on_return _) f
          (release-Keeps k c rest l e held) in
      (k1, >>=-ok _ (ap assert held) ∙ e1, s1, m1)

  pub set_status-Succeeds :
      (st : MachineStatus)
      → code_of (k.threads k.current_thread) ≡ set_status st ∷ rest
      → Succeeds k (exec (set_status st) rest k)
  unfolding exec
  set_status-Succeeds st e =
      let (c, r, ec) = found_Runs k (set_status st) rest s e (λ st h. h) (λ h. h) in
      let f : Fits k.level (set_status st ∷ rest) = found_Fits k (set_status st) rest s e in
      go-Succeeds k (record k { status = st }) c rest
        (Runs-update r k.level st k.yield_on_return k.locks) f
        (λ l m x. gone-Excludes (record k { status = st }) c rest l m e refl x)

  pub broadcast-Succeeds :
      (n l : ℕ)
      → code_of (k.threads k.current_thread) ≡ broadcast n l ∷ rest
      → Succeeds k (exec (broadcast n l) rest k)
  unfolding exec
  broadcast-Succeeds n l e =
      let (c, r, ec) = found_Runs k (broadcast n l) rest s e (λ st h. h) (λ h. h) in
      let f : Fits k.level (broadcast n l ∷ rest) = found_Fits k (broadcast n l) rest s e in
      elim (List-cases (k.conditions n)) [
        | inl empty ↦
            let (k1, e1, s1, m1) =
              go-Succeeds k k c rest r f (λ a m x. gone-Excludes k c rest a m e refl x) in
            (k1, ground arith, s1, m1)
        | inr (x, queue, q) ↦
            let (k1, e1, s1, m1) =
              go-Succeeds k k c (signal n l ∷ broadcast n l ∷ rest) r f
                (λ a m x. gone-Excludes k c _ a m e refl x) in
            (k1, ground arith, s1, m1)
      ]

  pub signal-Succeeds :
      (n l : ℕ)
      → code_of (k.threads k.current_thread) ≡ signal n l ∷ rest
      → is_held k l ≡ true
      → Succeeds k (exec (signal n l) rest k)
  unfolding exec signal_body
  signal-Succeeds n l e held =
      let (c, r, ec) = found_Runs k (signal n l) rest s e (λ st h. h) (λ h. h) in
      let f : Fits k.level (signal n l ∷ rest) = found_Fits k (signal n l) rest s e in
      elim (List-cases (k.conditions n)) [
        | inl empty ↦
            let (k1, e1, s1, m1) =
              go-Succeeds k k c rest r f (λ a m x. gone-Excludes k c rest a m e refl x) in
            (k1, ground arith, s1, m1)
        | inr (x, queue, q) ↦
            let (k1, e1, s1, m1) =
              go-Succeeds k (record k { conditions = put k.conditions n queue }) c
                (v_enter x ∷ rest) (Runs-signal r n x queue q) f
                (signal-Keeps k c rest n l x queue e q) in
            (k1, ground arith, s1, m1)
      ]

  pub wait-Succeeds :
      (n l : ℕ)
      → code_of (k.threads k.current_thread) ≡ wait n l ∷ rest
      → is_held k l ≡ true
      → Succeeds k (exec (wait n l) rest k)
  unfolding exec wait_body append
  wait-Succeeds n l e held =
      let (c, r, ec) = found_Runs k (wait n l) rest s e (λ st h. h) (λ h. h) in
      let f : Fits k.level (wait n l ∷ rest) = found_Fits k (wait n l) rest s e in
      let (k1, e1, s1, m1) =
        go-Succeeds k
          (record k {
            semaphores = put k.semaphores k.num_semaphores (record { value = 0; queue = [] });
            num_semaphores = k.num_semaphores + 1;
            conditions = put k.conditions n (k.conditions n ++ k.num_semaphores ∷ []);
          })
          c (release l ∷ p_enter k.num_semaphores ∷ acquire l ∷ rest) (Runs-wait r n) f
          (wait-Keeps k c rest n l e) in
      let new : contains (k.conditions n) k.num_semaphores ≡ false =
        ground (arith, r.waiters n k.num_semaphores) in
      (
        k1,
        >>=-ok _ (ap assert held) ∙ >>=-ok _ (>>=-ok _ (ap (λ b. assert (not b)) new)) ∙ e1,
        s1,
        m1,
      )

  pub set_level-Succeeds :
      (now : IntStatus)
      → code_of (k.threads k.current_thread) ≡ set_level now ∷ rest
      → Succeeds k (exec (set_level now) rest k)
  unfolding exec change_level
  set_level-Succeeds now e =
      let (c, r, ec) = found_Runs k (set_level now) rest s e (λ st h. h) (λ h. h) in
      let f : Fits k.level (set_level now ∷ rest) = found_Fits k (set_level now) rest s e in
      let (k1, e1, s1, m1) =
        go-Succeeds k (record k { level = now }) c _
          (Runs-update r now k.status k.yield_on_return k.locks) (ticks now f)
          (λ l m x. gone-Excludes (record k { level = now }) c _ l m e (tick_role l m now) x) in
      (k1, >>=-ok _ (allowed now) ∙ e1, s1, m1)
    where
      ticks :
          (now : IntStatus)
          → Continues now rest
          → Continues now (if not (is_off now) && is_off k.level then one_tick ∷ rest else rest)
      ticks int_off f = f
      ticks int_on f = elim (Bool-cases (is_off k.level)) [
        | inl off ↦ rw off (refl, f)
        | inr on ↦ rw on f
      ]

      tick_role :
          (l m : ℕ) (now : IntStatus)
          → role l m (if not (is_off now) && is_off k.level then one_tick ∷ rest else rest)
            ≡ role l m rest
      tick_role l m int_off = refl
      tick_role l m int_on = elim (Bool-cases (is_off k.level)) [
        | inl off ↦ rw off refl
        | inr on ↦ rw on refl
      ]

      allowed : (now : IntStatus) → assert (is_off now || not k.in_handler) ≡ ok tt
      allowed int_off = refl
      allowed int_on = ap (λ b. assert (not b)) s.no_handler
