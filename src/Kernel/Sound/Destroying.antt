-- ===== src/Kernel/Sound/Destroying.antt =====
-- Scheduler::CheckToBeDestroyed, after a switch.
use nach_os.Base.{
  ℕ, ◌≡◌, inl, inr, refl, sym, ◌∙◌, ap, subst, false, Option, none, some, Option-cases, List, ok,
  arith, ◌==◌, if_false,
}
use nach_os.Kernel.{ThreadStatus, running, Statement, Thread, Kernel, put}
use nach_os.Kernel.Scheduler.{check_to_be_destroyed}
use nach_os.Kernel.Sound.{StatusFits, status_of, code_of, IsSound}
use nach_os.Kernel.Sound.Moves.{Ordered-destroy}
use nach_os.Kernel.Mutex.{role}
use nach_os.Kernel.Mutex.Keeps.{Keeps}
use nach_os.Kernel.Mutex.Switches.{Keeps-code}
use nach_os.Kernel.Sound.Steps.{Runs}

check-none : (k : Kernel) → k.to_be_destroyed ≡ none → check_to_be_destroyed k ≡ ok k
unfolding check_to_be_destroyed
check-none k d = ground arith

check-some :
    (k : Kernel) (t : ℕ)
    → k.to_be_destroyed ≡ some t
    → (t == k.current_thread) ≡ false
    → check_to_be_destroyed k
      ≡ ok (record k { threads = put k.threads t none; to_be_destroyed = none })
unfolding check_to_be_destroyed
check-some k t d n = ground arith

-- A finished thread is deleted before the next one goes on.
pub destroy_ok :
    (k : Kernel) (code : List Statement)
    → IsSound k
    → code_of (k.threads k.current_thread) ≡ code
    → ((st : Option ThreadStatus) → StatusFits code st → st ≡ some running)
    → (k' : Kernel) × (c : Thread) × (check_to_be_destroyed k ≡ ok k')
      × (code_of (k'.threads k'.current_thread) ≡ code)
      × Keeps k k'
      × Runs k' c
      × (k'.level ≡ k.level)
destroy_ok k code s e plain =
    let st : status_of (k.threads k.current_thread) ≡ some running = plain _ (
      subst (λ q. StatusFits q (status_of (k.threads k.current_thread))) e
        s.ordered.current_status) in
    elim (Option-cases (k.threads k.current_thread)) [
      | inl gone_thread ↦ absurd (ground (arith, st))
      | inr (c, found) ↦ elim (Option-cases k.to_be_destroyed) [
        | inl d ↦ (
          k,
          c,
          check-none k d,
          e,
          λ l m x. x,
          record {
            found = found;
            status = ground (arith, st);
            not_destroyed = d;
            ordered = s.ordered;
            no_handler = s.no_handler;
            functions_fit = s.functions_fit;
            waiters = s.waiters;
          },
          refl,
        )
        | inr (t, d) ↦
            let n : (t == k.current_thread) ≡ false =
              ground (arith, s.ordered.destroyed_ne_current) in
            (
              record k { threads = put k.threads t none; to_be_destroyed = none },
              c,
              check-some k t d n,
              ap code_of (if_false none (k.threads k.current_thread) n) ∙ e,
              Keeps-code k t none k.semaphores
                  (λ l m. sym (ap (role l m) (s.ordered.destroyed_code t d))) (λ m. refl),
              record {
                found = if_false none (k.threads k.current_thread) n ∙ found;
                status = ground (arith, st);
                not_destroyed = refl;
                ordered = Ordered-destroy s.ordered t d;
                no_handler = s.no_handler;
                functions_fit = s.functions_fit;
                waiters = s.waiters;
              },
              refl,
            )
      ]
    ]
