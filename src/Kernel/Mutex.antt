-- ===== src/Kernel/Mutex.antt =====
-- Lock of threads/synch.cc, seen from one lock `l` and its semaphore `s`: who has it, is about to
-- have it or to give it back, and that this is one thread at most.
pub mod Moves
pub mod Keeps
pub mod Calls
pub mod Switches
pub mod Program
use nach_os.Base.{
  ℕ, ◌≤◌, ◌<◌, ◌≡◌, ◌≢◌, Bool, false, Option, some, List, [], ◌∷◌, ◌++◌, ◌==◌, if◌then◌else◌,
  contains, All,
}
use nach_os.Kernel.{
  Statement, p_enter, p_loop, v_enter, acquire, hold, release, wait, finish, CallBackObj, timer,
  device, PendingInterrupt, Lock, Kernel,
}
use nach_os.Kernel.Sound.{code_of}

-- What the code of a thread has to do with the lock: nothing, it waits in P for it, or it has taken
-- the semaphore and not yet set the holder, or reset the holder and not yet given the semaphore
-- back. `bad` is any other code.
pub data Role : Type 0 where
  outside : Role
  entering : Role
  owning : Role
  bad : Role

abbrev pub enter : Role → Role
enter owning = entering
enter _ = bad

abbrev pub own : Role → Role
own outside = owning
own _ = bad

abbrev pub only_outside : Role → Role
only_outside outside = outside
only_outside _ = bad

module _ (l s : ℕ) where
  abbrev pub next_role : Statement → Role → Role
  next_role (p_enter n) r = if n == s then enter r else r
  next_role (p_loop n) r = if n == s then enter r else r
  next_role (v_enter n) r = if n == s then own r else r
  next_role (hold n) r = if n == l then own r else r
  next_role (acquire n) r = if n == l then only_outside r else r
  next_role (release n) r = if n == l then only_outside r else r
  next_role (wait c n) r = if n == l then only_outside r else r
  next_role _ r = r

  abbrev pub role : List Statement → Role
  role [] = outside
  role (x ∷ code) = next_role x (role code)

-- At most one thread is the holder or owns the semaphore, whose value is then 0.
pub record Exclusive (roles : ℕ → Role) (value : ℕ) (holder : Option ℕ) : Type 0 where
  pub not_bad : (t : ℕ) → roles t ≢ bad
  pub holder_value : (t : ℕ) → holder ≡ some t → value ≡ 0
  pub owner_value : (t : ℕ) → roles t ≡ owning → value ≡ 0
  pub one_holder : (t u : ℕ) → holder ≡ some t → roles u ≢ owning
  pub unique : (t u : ℕ) → roles t ≡ owning → roles u ≡ owning → t ≡ u
  pub small : value ≤ 1

abbrev pub Spares : ℕ → CallBackObj → Type 0
Spares s timer = Unit {0}
Spares s (device n) = n ≢ s

-- Nothing but the lock uses its semaphore.
pub record Private (l s : ℕ) (functions : ℕ → List Statement) (pending : List PendingInterrupt)
    (conditions : ℕ → List ℕ) (num_semaphores : ℕ) (locks : ℕ → Lock) : Type 0 where
  pub functions_outside : (f : ℕ) → role l s (functions f ++ finish ∷ []) ≡ outside
  pub spared : All (λ x. Spares s x.call_on_interrupt) pending
  pub no_condition : (c : ℕ) → contains (conditions c) s ≡ false
  pub made : s < num_semaphores
  pub its_semaphore : (locks l).semaphore ≡ s
  pub others : (n : ℕ) → n ≢ l → (locks n).semaphore ≢ s

abbrev pub roles : ℕ → ℕ → Kernel → ℕ → Role
roles l s k t = role l s (code_of (k.threads t))

-- A product, so that it does not see the fields that it is not about.
abbrev pub Excludes : ℕ → ℕ → Kernel → Type 0
Excludes l s k =
    Private l s k.functions k.pending k.conditions k.num_semaphores k.locks
    × Exclusive (roles l s k) (k.semaphores s).value (k.locks l).lock_holder
