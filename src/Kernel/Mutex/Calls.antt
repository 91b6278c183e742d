-- ===== src/Kernel/Mutex/Calls.antt =====
-- Semaphore::V and the routines of Lock and Condition keep a lock with one thread.
use nach_os.Base.{
  contains-append, ℕ, ◌+◌, ◌≡◌, ◌≢◌, inl, inr, refl, sym, subst, ap, ◌∙◌, true, false, Option, none,
  some, List, [], ◌∷◌, ◌++◌, arith, ◌==◌, ==_iff, ne→==, if_true, if_false, Bool-cases, fun_ext,
}
use nach_os.Kernel.{
  Statement, p_enter, v_enter, acquire, hold, release, wait, signal, set_level, device, Semaphore,
  Thread, Kernel, Lock, put,
}
use nach_os.Kernel.Step.{disabled, is_held, set_holder}
use nach_os.Kernel.Sound.{code_of}
use nach_os.Kernel.Sound.Handlers.{Handled, Handled-Excludes}
use nach_os.Kernel.Sound.Steps.{gone, gone-Excludes}
use nach_os.Kernel.Mutex.{
  Role, outside, entering, owning, bad, enter, own, only_outside, next_role, role, roles, Exclusive,
  Private, Excludes,
}
use nach_os.Kernel.Mutex.Moves.{Exclusive-give, Exclusive-hold, Exclusive-release, Exclusive-enter}
use nach_os.Kernel.Mutex.Keeps.{Keeps, Private-same, Exclusive-moved, Exclusive-stays}

pub own-outside : (r : Role) → own r ≢ bad → r ≡ outside
own-outside outside h = refl
own-outside r h = absurd (h refl)

pub enter-owning : (r : Role) → enter r ≢ bad → r ≡ owning
enter-owning owning h = refl
enter-owning r h = absurd (h refl)

only_outside_lem : (r : Role) → only_outside r ≢ bad → r ≡ outside
only_outside_lem outside h = refl
only_outside_lem r h = absurd (h refl)

only_outside_twice : (r : Role) → only_outside (only_outside r) ≡ only_outside r
only_outside_twice outside = refl
only_outside_twice r = refl

-- A lock whose holder changes has its semaphore still.
Private-holder :
    (k : Kernel) (l s n : ℕ) (holder : Option ℕ)
    → Private l s k.functions k.pending k.conditions k.num_semaphores k.locks
    → Private l s k.functions k.pending k.conditions k.num_semaphores (set_holder k n holder).locks
unfolding set_holder
Private-holder k l s n holder p = record {
  functions_outside = p.functions_outside;
  spared = p.spared;
  no_condition = p.no_condition;
  made = p.made;
  its_semaphore = ground (arith, p.its_semaphore, ==_iff n l);
  others = λ i h. ground (arith, p.others i h, ==_iff n i);
}

module _ (k : Kernel) (c : Thread) (rest : List Statement) where
  role-here :
      (statement : Statement) (l s : ℕ)
      → code_of (k.threads k.current_thread) ≡ statement ∷ rest
      → Excludes l s k
      → next_role l s statement (role l s rest) ≢ bad
  role-here statement l s e x = subst (λ q. role l s q ≢ bad) e (x.1.not_bad k.current_thread)

  pub acquire-Keeps :
      (n : ℕ)
      → code_of (k.threads k.current_thread) ≡ acquire n ∷ rest
      → Keeps k (gone k c (p_enter (k.locks n).semaphore ∷ hold n ∷ rest))
  acquire-Keeps n e l s x = elim (Bool-cases (n == l)) [
    | inl same ↦
        let i : n ≡ l = (==_iff n l).0 same in
        let sem : ((k.locks n).semaphore == s) ≡ true =
          (==_iff _ _).1 (ap (λ j. (k.locks j).semaphore) i ∙ x.0.its_semaphore) in
        let out : role l s rest ≡ outside =
          only_outside_lem (role l s rest)
            (subst (λ q. q ≢ bad) (if_true _ _ same) (role-here (acquire n) l s e x)) in
        let r : role l s (p_enter (k.locks n).semaphore ∷ hold n ∷ rest) ≡ entering =
          if_true _ _ sem ∙ ap enter (if_true _ _ same ∙ ap own out) in
        let before : roles l s k k.current_thread ≡ outside =
          ap (role l s) e ∙ if_true _ _ same ∙ ap only_outside out in
        (
          x.0,
          Exclusive-moved l s k.threads k.current_thread _ refl refl entering r (
              Exclusive-enter x.1 k.current_thread entering (λ h. cc) (λ h. cc)
                (λ h. ground (arith, before))),
        )
    | inr other ↦
        let apart : ((k.locks n).semaphore == s) ≡ false =
          ne→== _ _ (x.0.others n (λ i. ground (arith))) in
        gone-Excludes k c _ l s e
          (if_false _ _ apart ∙ if_false _ _ other ∙ sym (if_false _ _ other)) x
  ]

  pub hold-Keeps :
      (n : ℕ)
      → code_of (k.threads k.current_thread) ≡ hold n ∷ rest
      → Keeps k (gone (set_holder k n (some k.current_thread)) c rest)
  unfolding set_holder
  hold-Keeps n e l s x = elim (Bool-cases (n == l)) [
    | inl same ↦
        let out : role l s rest ≡ outside =
          own-outside (role l s rest)
            (subst (λ q. q ≢ bad) (if_true _ _ same) (role-here (hold n) l s e x)) in
        let before : roles l s k k.current_thread ≡ owning =
          ap (role l s) e ∙ if_true _ _ same ∙ ap own out in
        (
          Private-holder k l s n (some k.current_thread) x.0,
          Exclusive-moved l s k.threads k.current_thread _ refl
              (ap (λ (w : Lock). w.lock_holder) (if_true _ (k.locks l) same)) outside out
              (Exclusive-hold x.1 k.current_thread before),
        )
    | inr other ↦ (
      Private-holder k l s n (some k.current_thread) x.0,
      Exclusive-stays l s k.threads k.current_thread _ refl
          (ap (λ (w : Lock). w.lock_holder) (if_false _ (k.locks l) other))
          (sym (if_false _ _ other) ∙ sym (ap (role l s) e)) x.1,
    )
  ]

  pub release-Keeps :
      (n : ℕ)
      → code_of (k.threads k.current_thread) ≡ release n ∷ rest
      → is_held k n ≡ true
      → Keeps k (gone (set_holder k n none) c (v_enter (k.locks n).semaphore ∷ rest))
  unfolding set_holder is_held
  release-Keeps n e held l s x = elim (Bool-cases (n == l)) [
    | inl same ↦
        let i : n ≡ l = (==_iff n l).0 same in
        let sem : ((k.locks n).semaphore == s) ≡ true =
          (==_iff _ _).1 (ap (λ j. (k.locks j).semaphore) i ∙ x.0.its_semaphore) in
        let out : role l s rest ≡ outside =
          only_outside_lem (role l s rest)
            (subst (λ q. q ≢ bad) (if_true _ _ same) (role-here (release n) l s e x)) in
        let before : roles l s k k.current_thread ≡ outside =
          ap (role l s) e ∙ if_true _ _ same ∙ ap only_outside out in
        let mine : (k.locks l).lock_holder ≡ some k.current_thread =
          subst (λ j. (k.locks j).lock_holder ≡ some k.current_thread) i (ground (arith, held)) in
        (
          Private-holder k l s n none x.0,
          Exclusive-moved l s k.threads k.current_thread _ refl
              (ap (λ (w : Lock). w.lock_holder) (if_true _ (k.locks l) same)) owning
              (if_true _ _ sem ∙ ap own out) (Exclusive-release x.1 k.current_thread before mine),
        )
    | inr other ↦
        let apart : ((k.locks n).semaphore == s) ≡ false =
          ne→== _ _ (x.0.others n (λ i. ground (arith))) in
        (
          Private-holder k l s n none x.0,
          Exclusive-stays l s k.threads k.current_thread _ refl
              (ap (λ (w : Lock). w.lock_holder) (if_false _ (k.locks l) other))
              (if_false _ _ apart ∙ sym (if_false _ _ other) ∙ sym (ap (role l s) e)) x.1,
        )
  ]

  -- V of the lock's semaphore, or of another.
  pub v_enter-Keeps :
      (n : ℕ) (k1 : Kernel)
      → code_of (k.threads k.current_thread) ≡ v_enter n ∷ rest
      → Handled (device n) (disabled k) k1
      → Keeps k (gone k1 c (set_level k.level ∷ rest))
  v_enter-Keeps n k1 e h l s x =
      let e1 : code_of (k1.threads k1.current_thread) ≡ v_enter n ∷ rest =
        ap (λ t. code_of (k1.threads t)) h.kept.current_thread ∙ h.kept.code k.current_thread ∙ e in
      elim (Bool-cases (n == s)) [
        | inl same ↦
            let out : role l s rest ≡ outside =
              own-outside (role l s rest)
                (subst (λ q. q ≢ bad) (if_true _ _ same) (role-here (v_enter n) l s e x)) in
            let before : roles l s k k1.current_thread ≡ owning =
              ap (roles l s k) h.kept.current_thread
              ∙ ap (role l s) e
              ∙ if_true _ _ same
              ∙ ap own out in
            let x1 : Exclusive (roles l s k1) (k.semaphores s).value (k.locks l).lock_holder =
              subst (λ q. Exclusive q (k.semaphores s).value (k.locks l).lock_holder)
                (sym (fun_ext (λ t. ap (role l s) (h.kept.code t)))) x.1 in
            let before1 : roles l s k1 k1.current_thread ≡ owning =
              ap (role l s) (h.kept.code k1.current_thread) ∙ before in
            (
              Private-same x.0 h.kept.functions (h.spares s x.0.spared) h.kept.conditions
                  h.kept.num_semaphores h.kept.locks,
              Exclusive-moved l s k1.threads k1.current_thread _ (h.values s ∙ if_true _ _ same)
                  (ap (λ g. (g l).lock_holder) h.kept.locks) outside out
                  (Exclusive-give x1 k1.current_thread before1),
            )
        | inr other ↦
            gone-Excludes k1 c (set_level k.level ∷ rest) l s e1 (sym (if_false _ _ other))
              (Handled-Excludes {k = disabled k} {k' = k1} l s h (λ i. ground (arith)) x)
      ]

  pub signal-Keeps :
      (n m waiter : ℕ) (queue : List ℕ)
      → code_of (k.threads k.current_thread) ≡ signal n m ∷ rest
      → k.conditions n ≡ waiter ∷ queue
      → Keeps k
          (gone (record k { conditions = put k.conditions n queue }) c (v_enter waiter ∷ rest))
  signal-Keeps n m waiter queue e q l s x =
      let apart : (waiter == s) ≡ false = ground (arith, x.0.no_condition n) in
      (
        record {
          functions_outside = x.0.functions_outside;
          spared = x.0.spared;
          no_condition = λ i. ground (arith, x.0.no_condition i, ==_iff n i);
          made = x.0.made;
          its_semaphore = x.0.its_semaphore;
          others = x.0.others;
        },
        Exclusive-stays l s k.threads k.current_thread _ refl refl
            (if_false _ _ apart ∙ sym (ap (role l s) e)) x.1,
      )

  pub wait-Keeps :
      (n m : ℕ)
      → code_of (k.threads k.current_thread) ≡ wait n m ∷ rest
      → Keeps k (
          gone
            (record k {
              semaphores = put k.semaphores k.num_semaphores (record { value = 0; queue = [] });
              num_semaphores = k.num_semaphores + 1;
              conditions = put k.conditions n (k.conditions n ++ k.num_semaphores ∷ []);
            })
            c
            (release m ∷ p_enter k.num_semaphores ∷ acquire m ∷ rest))
  wait-Keeps n m e l s x =
      let apart : (k.num_semaphores == s) ≡ false = ground (arith, x.0.made) in
      (
        record {
          functions_outside = x.0.functions_outside;
          spared = x.0.spared;
          no_condition = λ i. ground (
            arith,
            x.0.no_condition i,
            ==_iff n i,
            contains-append (k.conditions n) k.num_semaphores s,
            apart,
          );
          made = omega (arith, x.0.made);
          its_semaphore = x.0.its_semaphore;
          others = x.0.others;
        },
        Exclusive-stays l s k.threads k.current_thread _
            (ap (λ (w : Semaphore). w.value) (if_false _ (k.semaphores s) apart)) refl
            (waiting apart ∙ sym (ap (role l s) e)) x.1,
      )
    where
      waiting :
          (k.num_semaphores == s) ≡ false
          → role l s (release m ∷ p_enter k.num_semaphores ∷ acquire m ∷ rest)
            ≡ role l s (wait n m ∷ rest)
      waiting apart = elim (Bool-cases (m == l)) [
        | inl same ↦
            if_true _ _ same
            ∙ ap only_outside (if_false _ _ apart ∙ if_true _ _ same)
            ∙ only_outside_twice (role l s rest)
            ∙ sym (if_true _ _ same)
        | inr other ↦
            if_false _ _ other ∙ if_false _ _ apart ∙ if_false _ _ other ∙ sym (if_false _ _ other)
      ]
