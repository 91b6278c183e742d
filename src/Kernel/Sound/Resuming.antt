-- ===== src/Kernel/Sound/Resuming.antt =====
-- What runs after a switch (Scheduler::Run, Thread::Begin), and Yield, Fork and the clock, which
-- may lead to one.
use nach_os.Base.{
  ℕ, ◌≡◌, inl, inr, refl, sym, ◌∙◌, ap, subst, false, not, none, some, Option-cases, List, [], ◌∷◌,
  ◌++◌, List-cases, ok, assert, arith, ◌==◌, if_true, if_false, >>=-ok, Bool-cases, contains,
}
use nach_os.LinkedList.Sequence.{append}
use nach_os.Kernel.{
  just_created, system_mode, int_off, int_on, running, ready, Statement, set_level, one_tick,
  set_status, fork, begin, yield, finish, switched, Thread, Kernel, put,
}
use nach_os.Kernel.Scheduler.{ready_to_run}
use nach_os.Kernel.Step.{disabled, go, tick_yield, yield_body, fork_body, exec}
use nach_os.Kernel.Sound.{Continues, Fits, status_of, code_of, Ordered, IsSound}
use nach_os.Kernel.Sound.Switch.{Ordered-yield, yield-Fits, Ordered-fork}
use nach_os.Kernel.Mutex.{role}
use nach_os.Kernel.Mutex.Keeps.{Exclusive-stays}
use nach_os.Kernel.Mutex.Switches.{run-Keeps}
use nach_os.Kernel.Sound.Steps.{
  gone-Excludes, Succeeds, Runs, found_Runs, found_Fits, go-Succeeds, Runs-update, Runs-disabled,
  Runs-kept, put-put, put_self,
}
use nach_os.Kernel.Sound.Sleeping.{find_next-none, find_next-some}
use nach_os.Kernel.Sound.Switching.{run_ok, off_ok, set_thread_status_ok}
use nach_os.Kernel.Sound.Clock.{tick_ok}
use nach_os.Kernel.Sound.Destroying.{destroy_ok}

ready_to_run_ok :
    (k : Kernel) (t : ℕ) (c : Thread)
    → k.level ≡ int_off
    → k.threads t ≡ some c
    → contains k.ready_list t ≡ false
    → ready_to_run k t
      ≡ ok (record k {
        threads = put k.threads t (some (record c { status = ready }));
        ready_list = k.ready_list ++ t ∷ [];
      })
unfolding ready_to_run append
ready_to_run_ok k t c off e n =
    >>=-ok _ (off_ok off)
    ∙ >>=-ok _ (set_thread_status_ok k t c ready e)
    ∙ >>=-ok _ (>>=-ok _ (ap (λ b. assert (not b)) n))

fork-new :
    (k : Kernel) (t f : ℕ) (rest : List Statement) (k1 : Kernel)
    → k.threads t ≡ none
    → ready_to_run
        (disabled (record k {
          threads = put k.threads t (
              some (record { status = just_created; code = begin ∷ k.functions f ++ finish ∷ [] }));
        }))
        t
      ≡ ok k1
    → fork_body k t f rest ≡ go k1 (set_level k.level ∷ rest)
unfolding fork_body
fork-new k t f rest k1 new started = ground arith

-- Yield to `t`, the first ready thread.
yields_to :
    (k : Kernel) (rest : List Statement)
    → IsSound k
    → (c : Thread) → Runs k c
    → Continues k.level rest
    → code_of (k.threads k.current_thread) ≡ yield ∷ rest
    → (t : ℕ) (ready_list : List ℕ) → k.ready_list ≡ t ∷ ready_list
    → Ordered k.current_thread (t ∷ ready_list) none k.threads k.semaphores
    → Succeeds k (exec yield rest k)
unfolding exec yield_body
yields_to k rest s c r f e t ready_list q o =
    let waiting : Thread = record c { status = ready } in
    let old : Thread = record { status = ready; code = switched ∷ set_level k.level ∷ rest } in
    let st : status_of (k.threads k.current_thread) ≡ some running =
      ground (arith, r.found, r.status) in
    let listed : contains ready_list k.current_thread ≡ false =
      ground (arith, o.is_ready k.current_thread) in
    let k2 : Kernel = record k {
      level = int_off;
      ready_list = ready_list ++ k.current_thread ∷ [];
      threads = put k.threads k.current_thread (some waiting);
    } in
    elim (Option-cases (k.threads t)) [
      | inl no_thread ↦ absurd (ground (arith, o.is_ready t))
      | inr (c2, e2) ↦
          let apart : (k.current_thread == t) ≡ false = ground (arith, o.is_ready t, st) in
          let there : put k2.threads k.current_thread (some old) t ≡ some c2 =
            if_false _ _ apart ∙ if_false _ _ apart ∙ e2 in
          let threads =
            put (put k.threads k.current_thread (some old)) t
              (some (record c2 { status = running })) in
          (
            record k2 { current_thread = t; threads = threads },
            >>=-ok _ (find_next-some (disabled k) t ready_list refl q)
                ∙ >>=-ok _ (
                    ready_to_run_ok (record k { level = int_off; ready_list = ready_list })
                      k.current_thread c refl r.found listed)
                ∙ run_ok k2 waiting (put_self k.threads k.current_thread (some waiting)) t false
                    (set_level k.level ∷ rest) c2 refl r.not_destroyed there
                ∙ ap
                    (λ th. ok (record k2 {
                      current_thread = t;
                      threads = put th t (some (record c2 { status = running }));
                    }))
                    (put-put k.threads k.current_thread (some waiting) (some old)),
            record {
              ordered =
                  subst
                    (λ d. Ordered t (ready_list ++ k.current_thread ∷ []) d threads k.semaphores)
                    (sym r.not_destroyed)
                    (Ordered-yield o c r.found old (set_level k.level ∷ rest) r.status refl refl f
                      c2 e2);
              level_fits =
                  subst (λ th. Fits int_off (code_of th))
                    (sym (
                      put_self (put k.threads k.current_thread (some old)) t
                        (some (record c2 { status = running }))))
                    (yield-Fits o c r.found old (set_level k.level ∷ rest) r.status refl refl f c2
                      e2);
              no_handler = s.no_handler;
              functions_fit = s.functions_fit;
              waiters = s.waiters;
            },
            run-Keeps k old c2 t (λ l m. sym (ap (role l m) e)) (if_false _ _ apart ∙ e2),
          )
    ]

module _ (k : Kernel) (rest : List Statement) (s : IsSound k) where
  pub switched-Succeeds :
      code_of (k.threads k.current_thread) ≡ switched ∷ rest → Succeeds k (exec switched rest k)
  unfolding exec
  switched-Succeeds e =
      let f : Fits k.level (switched ∷ rest) = found_Fits k switched rest s e in
      let (k1, c, e1, e0, m0, r, l) = destroy_ok k (switched ∷ rest) s e (λ st h. h) in
      let (k2, e2, s2, m2) =
        go-Succeeds k k1 c rest r (subst (λ v. Continues v rest) (sym (l ∙ f.0)) f.1)
          (λ a m x. gone-Excludes k1 c rest a m e0 refl (m0 a m x)) in
      (k2, >>=-ok _ (off_ok f.0) ∙ >>=-ok _ e1 ∙ e2, s2, m2)

  pub begin-Succeeds :
      code_of (k.threads k.current_thread) ≡ begin ∷ rest → Succeeds k (exec begin rest k)
  unfolding exec
  begin-Succeeds e =
      let f : Fits k.level (begin ∷ rest) = found_Fits k begin rest s e in
      let (k1, c, e1, e0, m0, r, l) = destroy_ok k (begin ∷ rest) s e (λ st h. h) in
      let (k2, e2, s2, m2) =
        go-Succeeds k k1 c (set_level int_on ∷ rest) r f.1
          (λ a m x. gone-Excludes k1 c _ a m e0 refl (m0 a m x)) in
      (k2, >>=-ok _ e1 ∙ e2, s2, m2)

  pub one_tick-Succeeds :
      code_of (k.threads k.current_thread) ≡ one_tick ∷ rest → Succeeds k (exec one_tick rest k)
  unfolding exec tick_yield
  one_tick-Succeeds e =
      let f : Fits k.level (one_tick ∷ rest) = found_Fits k one_tick rest s e in
      let (k1, e1, o1, a, m0) = tick_ok k s.ordered s.no_handler in
      let (c, r, ec) =
        Runs-kept {k = record k { stats = k1.stats; level = int_on }} (one_tick ∷ rest) a o1 e
          (λ st h. h) (λ h. h) s.no_handler s.functions_fit s.waiters in
      let e0 : code_of (k1.threads k1.current_thread) ≡ one_tick ∷ rest =
        ap (λ t. code_of (k1.threads t)) a.current_thread ∙ a.code k.current_thread ∙ e in
      let f1 : Continues k1.level rest = subst (λ v. Continues v rest) (sym a.level) f.1 in
      elim (Bool-cases k1.yield_on_return) [
        | inl y ↦
            let (k2, e2, s2, m2) =
              go-Succeeds k (record k1 { yield_on_return = false; status = system_mode }) c
                (yield ∷ set_status k.status ∷ rest)
                (Runs-update r k1.level system_mode false k1.locks) f1
                (λ l m x.
                  gone-Excludes (record k1 { yield_on_return = false; status = system_mode }) c _ l
                    m e0 refl (m0 l m x)) in
            (k2, >>=-ok _ e1 ∙ if_true _ _ y ∙ e2, s2, m2)
        | inr n ↦
            let (k2, e2, s2, m2) =
              go-Succeeds k k1 c rest r f1
                (λ l m x. gone-Excludes k1 c rest l m e0 refl (m0 l m x)) in
            (k2, >>=-ok _ e1 ∙ if_false _ _ n ∙ e2, s2, m2)
      ]

  pub fork-Succeeds :
      (t f : ℕ)
      → code_of (k.threads k.current_thread) ≡ fork t f ∷ rest
      → k.threads t ≡ none
      → Succeeds k (exec (fork t f) rest k)
  unfolding exec
  fork-Succeeds t f e new =
      let (c, r, ec) = found_Runs k (fork t f) rest s e (λ st h. h) (λ h. h) in
      let fits : Fits k.level (fork t f ∷ rest) = found_Fits k (fork t f) rest s e in
      let code = k.functions f ++ finish ∷ [] in
      let st : status_of (k.threads k.current_thread) ≡ some running =
        ground (arith, r.found, r.status) in
      let made : Thread = record { status = just_created; code = begin ∷ code } in
      let listed : contains k.ready_list t ≡ false = ground (arith, s.ordered.is_ready t) in
      let k1 : Kernel = record k {
        level = int_off;
        ready_list = k.ready_list ++ t ∷ [];
        threads = put k.threads t (some (record { status = ready; code = begin ∷ code }));
      } in
      let started =
        ready_to_run_ok (disabled (record k { threads = put k.threads t (some made) })) t made refl
          (put_self k.threads t (some made)) listed
        ∙ ap (λ threads. ok (record k1 { threads = threads }))
            (put-put k.threads t (some made) (some (record made { status = ready }))) in
      let r1 : Runs k1 c = record {
        found = ground (arith, r.found);
        status = r.status;
        not_destroyed = r.not_destroyed;
        ordered = Ordered-fork t code r.ordered new st (s.functions_fit f);
        no_handler = r.no_handler;
        functions_fit = r.functions_fit;
        waiters = r.waiters;
      } in
      let (k2, e2, s2, m2) = go-Succeeds k k1 c (set_level k.level ∷ rest) r1 fits (λ l m x.
        gone-Excludes k1 c (set_level k.level ∷ rest) l m (ap code_of r1.found ∙ ec) refl (
          x.0,
          Exclusive-stays l m k.threads t (some (record { status = ready; code = begin ∷ code }))
              refl refl (x.0.functions_outside f ∙ sym (ap (λ th. role l m (code_of th)) new)) x.1,
        )) in
      (k2, fork-new k t f rest k1 new started ∙ e2, s2, m2)

  pub yield-Succeeds :
      code_of (k.threads k.current_thread) ≡ yield ∷ rest → Succeeds k (exec yield rest k)
  unfolding exec yield_body
  yield-Succeeds e =
      let (c, r, ec) = found_Runs k yield rest s e (λ st h. h) (λ h. h) in
      let f : Fits k.level (yield ∷ rest) = found_Fits k yield rest s e in
      elim (List-cases k.ready_list) [
        | inl q ↦
            let (k1, e1, s1, m1) =
              go-Succeeds k (disabled k) c (set_level k.level ∷ rest) (Runs-disabled r) f
                (λ l m x. gone-Excludes (disabled k) c _ l m e refl x) in
            (k1, >>=-ok _ (find_next-none (disabled k) refl q) ∙ e1, s1, m1)
        | inr (t, ready_list, q) ↦
            let o : Ordered k.current_thread (t ∷ ready_list) none k.threads k.semaphores =
              subst (λ l. Ordered k.current_thread l none k.threads k.semaphores) q
                (subst (λ d. Ordered k.current_thread k.ready_list d k.threads k.semaphores)
                  r.not_destroyed s.ordered) in
            yields_to k rest s c r f e t ready_list q o
      ]
