-- ===== src/Kernel/Mutex/Program.antt =====
-- A lock that the program uses only through Acquire, Release and conditions is held by one thread
-- at a time.
use nach_os.Base.{
  ℕ, ◌<◌, ◌≡◌, ◌≢◌, refl, ◌∙◌, ap, subst, Bool, none, some, List, [], ◌∷◌, ◌++◌, ok, arith, ◌==◌,
  ==_iff, if_true, Bool-cases, inl, inr, All,
}
use nach_os.Kernel.{hold, finish, halt, Statement, Semaphore, Lock, Kernel}
use nach_os.Kernel.Start.{initial, initialize}
use nach_os.Kernel.Sound.{code_of, IsSound}
use nach_os.Kernel.Sound.Handlers.{Handled-Excludes}
use nach_os.Kernel.Sound.Devices.{set_interrupt_ok}
use nach_os.Kernel.Sound.Stepping.{Reaches, Reaches-Excludes}
use nach_os.Kernel.Sound.Starting.{IsCall, initial-IsSound, initialize-IsSound}
use nach_os.Kernel.Mutex.{outside, bad, own, role, roles, Excludes}
use nach_os.Kernel.Mutex.Calls.{own-outside}

-- What is asked of the lock `l`, and of the program: nothing but the lock uses its semaphore `s`.
pub record Uses (l s : ℕ) (functions : ℕ → List Statement) (semaphores : ℕ → Semaphore)
    (num_semaphores : ℕ) (locks : ℕ → Lock) (main : List Statement) : Type 0 where
  pub main_outside : role l s (main ++ halt ∷ []) ≡ outside
  pub functions_outside : (f : ℕ) → role l s (functions f ++ finish ∷ []) ≡ outside
  pub made : s < num_semaphores
  pub its_semaphore : (locks l).semaphore ≡ s
  pub others : (n : ℕ) → n ≢ l → (locks n).semaphore ≢ s
  pub free : (semaphores s).value ≡ 1
  pub no_holder : (locks l).lock_holder ≡ none

module _ (randomize : Bool) (random : ℕ → ℕ) (functions : ℕ → List Statement)
    (semaphores : ℕ → Semaphore) (num_semaphores : ℕ) (locks : ℕ → Lock) (main : List Statement)
    (calls : All IsCall main) (all_calls : (f : ℕ) → All IsCall (functions f))
    (no_waiters : (s : ℕ) → (semaphores s).queue ≡ []) (l s : ℕ)
    (u : Uses l s functions semaphores num_semaphores locks main) where
  abbrev k0 : Kernel
  k0 = initial randomize random functions semaphores num_semaphores locks main

  initial_role : (t : ℕ) → roles l s k0 t ≡ outside
  unfolding initial
  initial_role t = elim (Bool-cases (t == 0)) [
    | inl first ↦ rw first u.main_outside
    | inr other ↦ rw other refl
  ]

  initial-Excludes : Excludes l s k0
  unfolding initial
  initial-Excludes = (
    record {
      functions_outside = u.functions_outside;
      spared = tt;
      no_condition = λ c. refl;
      made = u.made;
      its_semaphore = u.its_semaphore;
      others = u.others;
    },
    record {
      not_bad = λ t. ground (arith, initial_role t);
      holder_value = λ t h. ground (arith, u.no_holder);
      owner_value = λ t h. ground (arith, initial_role t);
      one_holder = λ t v h. ground (arith, u.no_holder);
      unique = λ t v h h'. ground (arith, initial_role t);
      small = ground (arith, u.free);
    },
  )

  initialize-Excludes :
      {k' : Kernel}
      → initialize randomize random functions semaphores num_semaphores locks main ≡ ok k'
      → Excludes l s k' × IsSound k'
  unfolding initialize
  initialize-Excludes {k'} e =
      let sound : IsSound k0 =
        initial-IsSound randomize random functions semaphores num_semaphores locks main calls
          all_calls no_waiters in
      let (k1, e1, h) = set_interrupt_ok k0 sound.ordered in
      let (k2, e2, s2, _) =
        initialize-IsSound randomize random functions semaphores num_semaphores locks main calls
          all_calls no_waiters in
      let same : k1 ≡ k' = cc in
      let same2 : k2 ≡ k' = cc in
      (
        subst (Excludes l s) same (Handled-Excludes l s h tt initial-Excludes),
        subst IsSound same2 s2,
      )

  -- While thread `t` is the holder of the lock, its semaphore is taken, and no thread is about to
  -- become the holder.
  pub lock_lem :
      {k' k : Kernel} (t v : ℕ) (rest : List Statement)
      → initialize randomize random functions semaphores num_semaphores locks main ≡ ok k'
      → Reaches k' k
      → (k.locks l).lock_holder ≡ some t
      → ((k.semaphores s).value ≡ 0) × (code_of (k.threads v) ≢ hold l ∷ rest)
  lock_lem {k'} {k} t v rest e r h =
      let (x0, sound) = initialize-Excludes e in
      let x : Excludes l s k = Reaches-Excludes l s sound x0 r in
      (
        x.1.holder_value t h,
        λ c.
            let o : roles l s k v ≡ own (role l s rest) =
              ap (role l s) c ∙ if_true _ _ ((==_iff l l).1 refl) in
            let out = own-outside (role l s rest) (subst (λ q. q ≢ bad) o (x.1.not_bad v)) in
            x.1.one_holder t v h (o ∙ ap own out),
      )
