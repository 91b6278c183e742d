-- ===== src/Kernel/Mutex/Keeps.antt =====
-- What leaves the lock alone.
use nach_os.Base.{
  Option, Bool-cases, inl, inr, ◌==◌, ==_iff, ℕ, ◌<◌, ◌≡◌, ◌≢◌, refl, sym, subst, ap, ◌∙◌, List,
  ◌++◌, ◌∷◌, [], false, All, contains, fun_ext,
}
use nach_os.Kernel.{Thread, put, Statement, finish, PendingInterrupt, Lock, Kernel}
use nach_os.Kernel.Sound.{code_of}
use nach_os.Kernel.Mutex.{Spares, Role, outside, role, roles, Exclusive, Private, Excludes}

-- Whatever the lock, the step keeps it with one thread.
abbrev pub Keeps : Kernel → Kernel → Type 0
Keeps k k' = (l s : ℕ) → Excludes l s k → Excludes l s k'

pub Private-same :
    {l s : ℕ} {functions functions' : ℕ → List Statement} {pending pending' : List PendingInterrupt}
    {conditions conditions' : ℕ → List ℕ} {n n' : ℕ} {locks locks' : ℕ → Lock}
    → Private l s functions pending conditions n locks
    → functions' ≡ functions
    → All (λ x. Spares s x.call_on_interrupt) pending'
    → conditions' ≡ conditions
    → n' ≡ n
    → locks' ≡ locks
    → Private l s functions' pending' conditions' n' locks'
Private-same {l} {s} p f a c n e = record {
  functions_outside =
      λ i. subst (λ g. role l s (g i ++ finish ∷ []) ≡ outside) (sym f) (p.functions_outside i);
  spared = a;
  no_condition = λ i. subst (λ g. contains (g i) s ≡ false) (sym c) (p.no_condition i);
  made = subst (λ m. s < m) (sym n) p.made;
  its_semaphore = subst (λ g. (g l).semaphore ≡ s) (sym e) p.its_semaphore;
  others = λ i h. subst (λ g. (g i).semaphore ≢ s) (sym e) (p.others i h);
}

pub Excludes-same :
    {l s : ℕ} (k k' : Kernel)
    → Excludes l s k
    → Private l s k'.functions k'.pending k'.conditions k'.num_semaphores k'.locks
    → ((t : ℕ) → roles l s k' t ≡ roles l s k t)
    → (k'.semaphores s).value ≡ (k.semaphores s).value
    → (k'.locks l).lock_holder ≡ (k.locks l).lock_holder
    → Excludes l s k'
Excludes-same {l} {s} k k' e p r v h = (
  p,
  subst (λ q. Exclusive q (k'.semaphores s).value (k'.locks l).lock_holder) (sym (fun_ext r))
      (subst (λ q. Exclusive (roles l s k) q (k'.locks l).lock_holder) (sym v)
        (subst (λ q. Exclusive (roles l s k) (k.semaphores s).value q) (sym h) e.1)),
)

pub put_same {ℓ} : {A : Type ℓ} (f : ℕ → A) (i : ℕ) (a : A) → a ≡ f i → put f i a ≡ f
put_same f i a e = fun_ext λ j. elim (Bool-cases (i == j)) [
  | inl same ↦ rw same (e ∙ ap f ((==_iff i j).0 same))
  | inr other ↦ rw other
]

module _ (l s : ℕ) where
  pub roles-put :
      (threads : ℕ → Option Thread) (i : ℕ) (c : Option Thread)
      → (λ t. role l s (code_of (put threads i c t)))
        ≡ put (λ t. role l s (code_of (threads t))) i (role l s (code_of c))
  roles-put threads i c =
      fun_ext λ t. elim (Bool-cases (i == t)) [ inl same ↦ rw same | inr other ↦ rw other ]

  module _ (threads : ℕ → Option Thread) (i : ℕ) (c : Option Thread) {value value' : ℕ}
      {holder holder' : Option ℕ} (v : value' ≡ value) (h : holder' ≡ holder) where
    -- A thread has got new code, with another role.
    pub Exclusive-moved :
        (r : Role)
        → role l s (code_of c) ≡ r
        → Exclusive (put (λ t. role l s (code_of (threads t))) i r) value holder
        → Exclusive (λ t. role l s (code_of (put threads i c t))) value' holder'
    Exclusive-moved r e x =
        subst (λ q. Exclusive q value' holder') (sym (roles-put threads i c))
          (subst (λ q. Exclusive (put (λ t. role l s (code_of (threads t))) i q) value' holder')
            (sym e)
            (subst (λ q. Exclusive (put (λ t. role l s (code_of (threads t))) i r) q holder')
              (sym v)
              (subst (λ q. Exclusive (put (λ t. role l s (code_of (threads t))) i r) value q)
                (sym h) x)))

    -- The code is new, and its role is the old one.
    pub Exclusive-stays :
        role l s (code_of c) ≡ role l s (code_of (threads i))
        → Exclusive (λ t. role l s (code_of (threads t))) value holder
        → Exclusive (λ t. role l s (code_of (put threads i c t))) value' holder'
    Exclusive-stays same x = Exclusive-moved (role l s (code_of (threads i))) same (
        subst (λ q. Exclusive q value holder)
          (sym (
            put_same (λ t. role l s (code_of (threads t))) i (role l s (code_of (threads i))) refl))
          x)
