-- ===== src/Kernel/Sound/Sleeping.antt =====
-- Thread::Sleep and Scheduler::Run of threads/thread.cc and threads/scheduler.cc: giving up the
-- processor, and what runs after it.
use nach_os.Base.{
  ℕ, ◌<◌, ◌≡◌, inl, inr, refl, sym, ◌∙◌, ap, subst, Bool, true, false, Option, none, some,
  Option-cases, List, [], ◌∷◌, ◌++◌, List-cases, ok, arith, >>=-ok, contains,
}
use nach_os.Kernel.{
  idle_mode, Statistics, int_off, int_on, running, blocked, Statement, finish, sleep_loop, switched,
  Thread, Kernel, put,
}
use nach_os.Kernel.Scheduler.{find_next_to_run}
use nach_os.Kernel.Step.{disabled, sleep_test, exec}
use nach_os.Kernel.Sound.{Continues, Fits, IsResumed, code_of, Ordered, IsOrdered, IsSound}
use nach_os.Kernel.Sound.Moves.{Ordered-set_current}
use nach_os.Kernel.Sound.Switch.{Ordered-sleep, Ordered-finish, sleep-Fits, finish-Fits}
use nach_os.Kernel.Sound.Handlers.{Kept}
use nach_os.Kernel.Mutex.{role}
use nach_os.Kernel.Mutex.Switches.{Keeps-code, run-Keeps}
use nach_os.Kernel.Sound.Steps.{Succeeds, found_Runs, found_Fits, put_self}
use nach_os.Kernel.Sound.Switching.{sleep_ok, run_ok}
use nach_os.Kernel.Sound.Clock.{idle_ok}

-- A change of the stopped machine by handlers.
pub IsSound-kept : {k k' : Kernel} → IsSound k → IsOrdered k' → Kept k k' → IsSound k'
IsSound-kept {k} {k'} s o a = record {
  ordered = o;
  level_fits =
      let same : code_of (k'.threads k'.current_thread) ≡ code_of (k.threads k.current_thread) =
        ap (λ t. code_of (k'.threads t)) a.current_thread ∙ a.code k.current_thread in
      subst (λ l. Fits l (code_of (k'.threads k'.current_thread))) (sym a.level)
        (subst (Fits k.level) (sym same) s.level_fits);
  no_handler = a.in_handler ∙ s.no_handler;
  functions_fit =
      λ f. subst (λ g. Continues int_on (g f ++ finish ∷ [])) (sym a.functions) (s.functions_fit f);
  waiters = λ c n m.
      subst (λ bound. n < bound) (sym a.num_semaphores)
        (s.waiters c n (subst (λ g. contains (g c) n ≡ true) a.conditions m));
}

IsSound-idle :
    (k : Kernel) (stats : Statistics)
    → IsSound k
    → IsSound (record k { stats = stats; status = idle_mode })
IsSound-idle k stats s = record {
  ordered = s.ordered;
  level_fits = s.level_fits;
  no_handler = s.no_handler;
  functions_fit = s.functions_fit;
  waiters = s.waiters;
}

pub find_next-none :
    (k : Kernel) → k.level ≡ int_off → k.ready_list ≡ [] → find_next_to_run k ≡ ok (none, k)
unfolding find_next_to_run
find_next-none k off e = ground arith

pub find_next-some :
    (k : Kernel) (t : ℕ) (rest : List ℕ)
    → k.level ≡ int_off
    → k.ready_list ≡ t ∷ rest
    → find_next_to_run k ≡ ok (some t, record k { ready_list = rest })
unfolding find_next_to_run
find_next-some k t rest off e = ground arith

-- The machine after Run.
pub after_run-IsSound :
    (k : Kernel) (next : ℕ) (destroyed : Option ℕ) (ready_list : List ℕ)
    (threads : ℕ → Option Thread) (c2 : Thread)
    → IsSound k
    → k.level ≡ int_off
    → Fits int_off c2.code
    → Ordered next ready_list destroyed
        (put threads next (some (record c2 { status = running })))
        k.semaphores
    → IsSound (record k {
      to_be_destroyed = destroyed;
      ready_list = ready_list;
      current_thread = next;
      threads = put threads next (some (record c2 { status = running }));
    })
after_run-IsSound k next destroyed ready_list threads c2 s off f o = record {
  ordered = o;
  level_fits =
      subst (λ t. Fits k.level (code_of t))
        (sym (put_self threads next (some (record c2 { status = running }))))
        (subst (λ l. Fits l c2.code) (sym off) f);
  no_handler = s.no_handler;
  functions_fit = s.functions_fit;
  waiters = s.waiters;
}

module _ (k : Kernel) (rest : List Statement) (s : IsSound k) where
  pub finish-Succeeds :
      code_of (k.threads k.current_thread) ≡ finish ∷ rest → Succeeds k (exec finish rest k)
  unfolding exec
  finish-Succeeds e =
      let (c, r, ec) = found_Runs k finish rest s e (λ st h. h) (λ h. h) in
      let f : Fits k.level (finish ∷ rest) = found_Fits k finish rest s e in
      let asleep : Thread = record { status = blocked; code = sleep_loop true ∷ rest } in
      (
        record k { level = int_off; threads = put k.threads k.current_thread (some asleep) },
        sleep_ok (disabled k) c r.found true rest refl,
        record {
          ordered =
              Ordered-set_current r.ordered asleep (ground (arith, r.found, r.status))
                (inl r.not_destroyed) refl;
          level_fits =
              subst (λ t. Fits int_off (code_of t))
                (sym (put_self k.threads k.current_thread (some asleep))) (refl, f);
          no_handler = r.no_handler;
          functions_fit = r.functions_fit;
          waiters = r.waiters;
        },
        Keeps-code (disabled k) k.current_thread (some asleep) k.semaphores
            (λ l m. sym (ap (role l m) e)) (λ m. refl),
      )

  module _ (finishing : Bool)
      (e : code_of (k.threads k.current_thread) ≡ sleep_loop finishing ∷ rest) where
    sleeps_off : k.level ≡ int_off
    sleeps_off = level finishing (found_Fits k (sleep_loop finishing) rest s e)
      where
        level : (b : Bool) → Fits k.level (sleep_loop b ∷ rest) → k.level ≡ int_off
        level true f = f.0
        level false f = f.0

    none_destroyed : k.to_be_destroyed ≡ none
    none_destroyed = elim s.ordered.destroys [ inl d ↦ d | inr h ↦ absurd (subst IsResumed e h) ]

    sleeper :
        (c : Thread) × (k.threads k.current_thread ≡ some c)
        × (c.code ≡ sleep_loop finishing ∷ rest)
    sleeper = elim (Option-cases (k.threads k.current_thread)) [
      | inl no_thread ↦ absurd (ground (arith, e))
      | inr (c, found) ↦ (c, found, ground (arith, e))
    ]

    sleeps-Ordered :
        (t : ℕ) (ready_list : List ℕ)
        → k.ready_list ≡ t ∷ ready_list
        → Ordered k.current_thread (t ∷ ready_list) none k.threads k.semaphores
    sleeps-Ordered t ready_list q =
        subst (λ l. Ordered k.current_thread l none k.threads k.semaphores) q
          (subst (λ d. Ordered k.current_thread k.ready_list d k.threads k.semaphores)
            none_destroyed s.ordered)

    sleeps_next :
        (t : ℕ) (ready_list : List ℕ) (x : Thread)
        → k.ready_list ≡ t ∷ ready_list
        → (c2 : Thread) × (put k.threads k.current_thread (some x) t ≡ some c2)
    sleeps_next t ready_list x q = elim (Option-cases (put k.threads k.current_thread (some x) t)) [
      | inl no_thread ↦ absurd (ground (arith, s.ordered.is_ready t))
      | inr found ↦ found
    ]

    sleeps_idle : k.ready_list ≡ [] → Succeeds k (exec (sleep_loop finishing) rest k)
    unfolding exec sleep_test
    sleeps_idle q =
        let (k1, e1, o1, a, m) = idle_ok k s.ordered sleeps_off s.no_handler in
        (
          k1,
          >>=-ok _ (find_next-none k sleeps_off q) ∙ e1,
          IsSound-kept (IsSound-idle k k1.stats s) o1 a,
          m,
        )

-- The loop of Sleep in P, and in Finish.
sleep_loop_false-Succeeds :
    (k : Kernel) (rest : List Statement) (s : IsSound k)
    → code_of (k.threads k.current_thread) ≡ sleep_loop false ∷ rest
    → Succeeds k (exec (sleep_loop false) rest k)
unfolding exec sleep_test
sleep_loop_false-Succeeds k rest s e =
    let off = sleeps_off k rest s false e in
    let (c, found, ec) = sleeper k rest s false e in
    let f : Fits k.level (sleep_loop false ∷ rest) = found_Fits k (sleep_loop false) rest s e in
    elim (List-cases k.ready_list) [
      | inl q ↦ sleeps_idle k rest s false e q
      | inr (t, ready_list, q) ↦
          let o = sleeps-Ordered k rest s false e t ready_list q in
          let old : Thread = record c { code = switched ∷ rest } in
          let (c2, e2) = sleeps_next k rest s false e t ready_list old q in
          let none_marked = none_destroyed k rest s false e in
          (
            record k {
              ready_list = ready_list;
              current_thread = t;
              threads =
                  put (put k.threads k.current_thread (some old)) t
                    (some (record c2 { status = running }));
            },
            >>=-ok _ (find_next-some k t ready_list off q)
                ∙ run_ok (record k { ready_list = ready_list }) c found t false rest c2 off
                    none_marked e2,
            after_run-IsSound k t k.to_be_destroyed ready_list
                (put k.threads k.current_thread (some old)) c2 s off
                (sleep-Fits o c found rest ec f.1 c2 e2)
                (subst
                  (λ d.
                    Ordered t ready_list d
                      (put (put k.threads k.current_thread (some old)) t
                        (some (record c2 { status = running })))
                      k.semaphores)
                  (sym none_marked) (Ordered-sleep o c found rest ec f.1 c2 e2)),
            run-Keeps k old c2 t (λ l m. sym (ap (role l m) e)) e2,
          )
    ]

sleep_loop_true-Succeeds :
    (k : Kernel) (rest : List Statement) (s : IsSound k)
    → code_of (k.threads k.current_thread) ≡ sleep_loop true ∷ rest
    → rest ≡ []
    → Succeeds k (exec (sleep_loop true) rest k)
unfolding exec sleep_test
sleep_loop_true-Succeeds k (x ∷ rest) s e last = absurd (ground (arith, last))
sleep_loop_true-Succeeds k [] s e last =
    let off = sleeps_off k [] s true e in
    let (c, found, ec) = sleeper k [] s true e in
    elim (List-cases k.ready_list) [
      | inl q ↦ sleeps_idle k [] s true e q
      | inr (t, ready_list, q) ↦
          let o = sleeps-Ordered k [] s true e t ready_list q in
          let old : Thread = record c { code = switched ∷ [] } in
          let (c2, e2) = sleeps_next k [] s true e t ready_list old q in
          let none_marked = none_destroyed k [] s true e in
          (
            record k {
              to_be_destroyed = some k.current_thread;
              ready_list = ready_list;
              current_thread = t;
              threads =
                  put (put k.threads k.current_thread (some old)) t
                    (some (record c2 { status = running }));
            },
            >>=-ok _ (find_next-some k t ready_list off q)
                ∙ run_ok (record k { ready_list = ready_list }) c found t true [] c2 off none_marked
                    e2,
            after_run-IsSound k t (some k.current_thread) ready_list
                (put k.threads k.current_thread (some old)) c2 s off
                (finish-Fits o c found ec c2 e2) (Ordered-finish o c found ec c2 e2),
            run-Keeps k old c2 t (λ l m. sym (ap (role l m) e)) e2,
          )
    ]

pub sleep_loop-Succeeds :
    (k : Kernel) (rest : List Statement) (s : IsSound k) (finishing : Bool)
    → code_of (k.threads k.current_thread) ≡ sleep_loop finishing ∷ rest
    → Succeeds k (exec (sleep_loop finishing) rest k)
sleep_loop-Succeeds k rest s false e = sleep_loop_false-Succeeds k rest s e
sleep_loop-Succeeds k rest s true e =
    let f : Fits k.level (sleep_loop true ∷ rest) = found_Fits k (sleep_loop true) rest s e in
    sleep_loop_true-Succeeds k rest s e f.1
