-- ===== src/Kernel/Sound/Switching.antt =====
-- threads/thread.cc and threads/scheduler.cc: the statements that may switch threads.
use nach_os.Base.{
  ℕ, ◌-◌, ◌≡◌, inl, inr, refl, sym, ◌∙◌, ap, subst, Bool, true, false, not, ◌||◌, Option, none,
  some, List, [], ◌∷◌, ◌++◌, ok, assert, arith, ◌==◌, if◌then◌else◌, if_true, if_false, >>=-ok,
  Bool-cases,
}
use nach_os.LinkedList.Sequence.{append}
use nach_os.Kernel.{
  IntStatus, ThreadStatus, int_off, running, blocked, Statement, p_loop, sleep_loop, switched,
  Thread, Semaphore, Kernel, put,
}
use nach_os.Kernel.Scheduler.{is_off, is_null, set_thread_status, set_code, run}
use nach_os.Kernel.Step.{sleep, p_test, exec}
use nach_os.Kernel.Sound.{Continues, Fits, status_of, code_of, IsSound}
use nach_os.Kernel.Sound.Moves.{not-mem-queue, Ordered-value, Ordered-block}
use nach_os.Kernel.Mutex.{role}
use nach_os.Kernel.Mutex.Switches.{Keeps-code, take-Keeps, queue_value}
use nach_os.Kernel.Sound.Steps.{
  Succeeds, Runs, found_Runs, found_Fits, go-Succeeds, put-put, put_self, go_ok,
}

pub set_thread_status_ok :
    (k : Kernel) (t : ℕ) (c : Thread) (st : ThreadStatus)
    → k.threads t ≡ some c
    → set_thread_status k t st
      ≡ ok (record k { threads = put k.threads t (some (record c { status = st })) })
unfolding set_thread_status
set_thread_status_ok k t c st e = ground arith

pub set_code_ok :
    (k : Kernel) (t : ℕ) (c : Thread) (code : List Statement)
    → k.threads t ≡ some c
    → set_code k t code
      ≡ ok (record k { threads = put k.threads t (some (record c { code = code })) })
unfolding set_code
set_code_ok k t c code e = ground arith

-- The old thread is the last to be marked for deletion.
none_marked : (finishing : Bool) → assert (not finishing || is_null none) ≡ ok tt
none_marked true = refl
none_marked false = refl

pub off_ok : {level : IntStatus} → level ≡ int_off → assert (is_off level) ≡ ok tt
off_ok off = ap (λ l. assert (is_off l)) off

module _ (k : Kernel) (c : Thread) (found : k.threads k.current_thread ≡ some c) where
  pub sleep_ok :
      (finishing : Bool) (rest : List Statement)
      → k.level ≡ int_off
      → sleep k finishing rest
        ≡ ok (record k {
          threads =
              put k.threads k.current_thread
                (some (record { status = blocked; code = sleep_loop finishing ∷ rest }));
        })
  unfolding sleep
  sleep_ok finishing rest off =
      let asleep : Option Thread = some (record c { status = blocked }) in
      >>=-ok _ (off_ok off)
      ∙ >>=-ok _ (set_thread_status_ok k k.current_thread c blocked found)
      ∙ go_ok (record k { threads = put k.threads k.current_thread asleep })
          (record c { status = blocked }) (sleep_loop finishing ∷ rest)
          (put_self k.threads k.current_thread asleep)
      ∙ ap (λ threads. ok (record k { threads = threads }))
          (put-put k.threads k.current_thread asleep
            (some (record { status = blocked; code = sleep_loop finishing ∷ rest })))

  pub run_ok :
      (next : ℕ) (finishing : Bool) (rest : List Statement) (c2 : Thread)
      → k.level ≡ int_off
      → k.to_be_destroyed ≡ none
      → put k.threads k.current_thread (some (record c { code = switched ∷ rest })) next ≡ some c2
      → run k next finishing rest
        ≡ ok (record k {
          to_be_destroyed = if finishing then some k.current_thread else k.to_be_destroyed;
          current_thread = next;
          threads =
              put
                (put k.threads k.current_thread (some (record c { code = switched ∷ rest })))
                next
                (some (record c2 { status = running }));
        })
  unfolding run
  run_ok next finishing rest c2 off d e2 =
      let k1 : Kernel = record k {
        to_be_destroyed = if finishing then some k.current_thread else k.to_be_destroyed;
        current_thread = next;
      } in
      >>=-ok _ (off_ok off)
      ∙ >>=-ok _ (ap (λ d'. assert (not finishing || is_null d')) d ∙ none_marked finishing)
      ∙ >>=-ok _ (set_code_ok k1 k.current_thread c (switched ∷ rest) found)
      ∙ set_thread_status_ok
          (record k1 {
            threads = put k.threads k.current_thread (some (record c { code = switched ∷ rest }));
          })
          next c2 running e2

-- The semaphore is free, and P takes it.
Runs-value :
    {k : Kernel} {c : Thread}
    → Runs k c
    → (n value : ℕ)
    → Runs
        (record k { semaphores = put k.semaphores n (record (k.semaphores n) { value = value }) })
        c
Runs-value r n value = record {
  found = r.found;
  status = r.status;
  not_destroyed = r.not_destroyed;
  ordered = Ordered-value r.ordered n value;
  no_handler = r.no_handler;
  functions_fit = r.functions_fit;
  waiters = r.waiters;
}

module _ (k : Kernel) (rest : List Statement) (s : IsSound k) where
  pub p_loop-Succeeds :
      (n : ℕ)
      → code_of (k.threads k.current_thread) ≡ p_loop n ∷ rest
      → Succeeds k (exec (p_loop n) rest k)
  unfolding exec p_test append
  p_loop-Succeeds n e =
      let (c, r, ec) = found_Runs k (p_loop n) rest s e (λ st h. h) (λ h. h) in
      let f : Fits k.level (p_loop n ∷ rest) = found_Fits k (p_loop n) rest s e in
      let st : status_of (k.threads k.current_thread) ≡ some running =
        ground (arith, r.found, r.status) in
      let asleep : Thread = record {
        status = blocked;
        code = sleep_loop false ∷ p_loop n ∷ rest;
      } in
      let queued : ℕ → Semaphore =
        put k.semaphores n
          (record (k.semaphores n) { queue = (k.semaphores n).queue ++ k.current_thread ∷ [] }) in
      elim (Bool-cases ((k.semaphores n).value == 0)) [
        | inl z ↦ (
          record k { semaphores = queued; threads = put k.threads k.current_thread (some asleep) },
          if_true _ _ z
              ∙ >>=-ok _ (
                  >>=-ok _
                    (ap (λ b. assert (not b)) (not-mem-queue r.ordered k.current_thread st n)))
              ∙ sleep_ok (record k { semaphores = queued }) c r.found false (p_loop n ∷ rest) f.0,
          record {
            ordered = Ordered-block r.ordered n rest asleep st r.not_destroyed refl refl;
            level_fits =
                subst (λ t. Fits k.level (code_of t))
                  (sym (put_self k.threads k.current_thread (some asleep))) (f.0, (refl, f.1));
            no_handler = r.no_handler;
            functions_fit = r.functions_fit;
            waiters = r.waiters;
          },
          Keeps-code k k.current_thread (some asleep) queued (λ l m. sym (ap (role l m) e))
              (queue_value k n ((k.semaphores n).queue ++ k.current_thread ∷ [])),
        )
        | inr nz ↦
            let (k1, e1, s1, m1) =
              go-Succeeds k
                (record k {
                  semaphores =
                      put k.semaphores n
                        (record (k.semaphores n) { value = (k.semaphores n).value - 1 });
                })
                c rest (Runs-value r n ((k.semaphores n).value - 1))
                (subst (λ l. Continues l rest) (sym f.0) f.1) (take-Keeps k c rest n e nz) in
            (k1, if_false _ _ nz ∙ e1, s1, m1)
      ]
