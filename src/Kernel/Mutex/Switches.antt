-- ===== src/Kernel/Mutex/Switches.antt =====
-- P and the statements that switch threads keep a lock with one thread.
use nach_os.Base.{
  ℕ, ◌-◌, ◌≡◌, ◌≢◌, inl, inr, refl, sym, subst, ap, ◌∙◌, false, Option, some, List, ◌∷◌, arith,
  ◌==◌, ==_iff, if_true, if_false, Bool-cases,
}
use nach_os.Kernel.{running, Statement, p_loop, Thread, Semaphore, Kernel, put}
use nach_os.Kernel.Sound.{code_of}
use nach_os.Kernel.Sound.Steps.{gone}
use nach_os.Kernel.Mutex.{entering, owning, bad, enter, role, roles}
use nach_os.Kernel.Mutex.Moves.{Exclusive-take}
use nach_os.Kernel.Mutex.Keeps.{Keeps, Exclusive-moved, Exclusive-stays}
use nach_os.Kernel.Mutex.Calls.{enter-owning}

-- A thread gets a new status and new code of the same role.
pub Keeps-code :
    (k : Kernel) (i : ℕ) (c : Option Thread) (semaphores : ℕ → Semaphore)
    → ((l s : ℕ) → role l s (code_of c) ≡ role l s (code_of (k.threads i)))
    → ((s : ℕ) → (semaphores s).value ≡ (k.semaphores s).value)
    → Keeps k (record k { threads = put k.threads i c; semaphores = semaphores })
Keeps-code k i c semaphores same v l s x =
    (x.0, Exclusive-stays l s k.threads i c (v s) refl (same l s) x.1)

-- Only a queue has changed.
pub queue_value :
    (k : Kernel) (n : ℕ) (queue : List ℕ) (s : ℕ)
    → (put k.semaphores n (record (k.semaphores n) { queue = queue }) s).value
      ≡ (k.semaphores s).value
queue_value k n queue s = elim (Bool-cases (n == s)) [
  | inl same ↦
      ap (λ (w : Semaphore). w.value) (if_true _ (k.semaphores s) same)
      ∙ ap (λ j. (k.semaphores j).value) ((==_iff n s).0 same)
  | inr other ↦ ap (λ (w : Semaphore). w.value) (if_false _ (k.semaphores s) other)
]

-- P takes the lock's semaphore, or another.
pub take-Keeps :
    (k : Kernel) (c : Thread) (rest : List Statement) (n : ℕ)
    → code_of (k.threads k.current_thread) ≡ p_loop n ∷ rest
    → ((k.semaphores n).value == 0) ≡ false
    → Keeps k (
        gone
          (record k {
            semaphores =
                put k.semaphores n (record (k.semaphores n) { value = (k.semaphores n).value - 1 });
          })
          c
          rest)
take-Keeps k c rest n e nz l s x = elim (Bool-cases (n == s)) [
  | inl same ↦
      let i : n ≡ s = (==_iff n s).0 same in
      let here : enter (role l s rest) ≢ bad =
        subst (λ q. q ≢ bad) (if_true _ _ same)
          (subst (λ q. role l s q ≢ bad) e (x.1.not_bad k.current_thread)) in
      let owns = enter-owning (role l s rest) here in
      let before : roles l s k k.current_thread ≡ entering =
        ap (role l s) e ∙ if_true _ _ same ∙ ap enter owns in
      let positive : (k.semaphores s).value ≢ 0 =
        subst (λ j. (k.semaphores j).value ≢ 0) i (λ z. ground (arith)) in
      (
        x.0,
        Exclusive-moved l s k.threads k.current_thread _
            (ap (λ (w : Semaphore). w.value) (if_true _ (k.semaphores s) same)
              ∙ ap (λ j. (k.semaphores j).value - 1) i)
            refl owning owns (Exclusive-take x.1 k.current_thread before positive),
      )
  | inr other ↦ (
    x.0,
    Exclusive-stays l s k.threads k.current_thread _
        (ap (λ (w : Semaphore). w.value) (if_false _ (k.semaphores s) other)) refl
        (sym (if_false _ _ other) ∙ sym (ap (role l s) e)) x.1,
  )
]

-- Run: the old thread goes on after SWITCH, and the next one runs.
pub run-Keeps :
    (k : Kernel) (old c2 : Thread) (next : ℕ)
    → ((l s : ℕ) → role l s old.code ≡ role l s (code_of (k.threads k.current_thread)))
    → put k.threads k.current_thread (some old) next ≡ some c2
    → Keeps k (record k {
      threads =
          put
            (put k.threads k.current_thread (some old))
            next
            (some (record c2 { status = running }));
    })
run-Keeps k old c2 next same e l s x =
    let y = Exclusive-stays l s k.threads k.current_thread (some old) refl refl (same l s) x.1 in
    (
      x.0,
      Exclusive-stays l s (put k.threads k.current_thread (some old)) next
          (some (record c2 { status = running })) refl refl (sym (ap (λ c. role l s (code_of c)) e))
          y,
    )
