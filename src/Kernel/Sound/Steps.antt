-- ===== src/Kernel/Sound/Steps.antt =====
-- Each statement of the running thread is executed without a failed assertion, and leaves the
-- threads in order.
use nach_os.Base.{
  ℕ, ◌<◌, ◌≡◌, inl, inr, refl, sym, ◌∙◌, ap, subst, Bool, true, false, Option, none, some,
  Option-cases, List, [], ◌∷◌, ◌++◌, Result, ok, arith, ◌==◌, ==_iff, if_true, Bool-cases, contains,
  fun_ext,
}
use nach_os.Kernel.{
  IntStatus, MachineStatus, ThreadStatus, Lock, int_off, int_on, running, Statement, release, wait,
  signal, fork, finish, sleep_loop, Thread, Kernel, put,
}
use nach_os.Kernel.Scheduler.{set_code}
use nach_os.Kernel.Step.{disabled, go, is_held}
use nach_os.Kernel.Sound.{
  Continues, Fits, IsResumed, StatusFits, status_of, code_of, IsOrdered, IsSound,
}
use nach_os.Kernel.Sound.Moves.{Ordered-set_current}
use nach_os.Kernel.Mutex.{role, Excludes}
use nach_os.Kernel.Mutex.Keeps.{Keeps, Exclusive-stays}
use nach_os.Kernel.Sound.Handlers.{Kept}

-- What a statement asks of the program: ASSERT(IsHeldByCurrentThread()), and a new thread.
abbrev pub Lawful : Kernel → Statement → Type 0
Lawful k (release l) = is_held k l ≡ true
Lawful k (wait c l) = is_held k l ≡ true
Lawful k (signal c l) = is_held k l ≡ true
Lawful k (fork t f) = k.threads t ≡ none
Lawful k _ = Unit {0}

pub Continues-StatusFits :
    (level : IntStatus) (code : List Statement)
    → Continues level code
    → StatusFits code (some running)
Continues-StatusFits level (sleep_loop finishing ∷ rest) h = absurd h
Continues-StatusFits level (x ∷ rest) h = refl
Continues-StatusFits level [] h = absurd h

pub Continues-Fits :
    (level : IntStatus) (code : List Statement) → Continues level code → Fits level code
Continues-Fits level (sleep_loop finishing ∷ rest) h = absurd h
Continues-Fits level (x ∷ rest) h = h
Continues-Fits level [] h = h

pub put-put {ℓ} : {A : Type ℓ} (f : ℕ → A) (i : ℕ) (a b : A) → put (put f i a) i b ≡ put f i b
put-put f i a b =
    fun_ext λ j. elim (Bool-cases (i == j)) [ inl same ↦ rw same refl | inr other ↦ rw other refl ]

-- The running thread of a kernel in order, outside the loop of Sleep.
pub record Runs (k : Kernel) (c : Thread) : Type 0 where
  pub found : k.threads k.current_thread ≡ some c
  pub status : c.status ≡ running
  pub not_destroyed : k.to_be_destroyed ≡ none
  pub ordered : IsOrdered k
  pub no_handler : k.in_handler ≡ false
  pub functions_fit : (f : ℕ) → Continues int_on (k.functions f ++ finish ∷ [])
  pub waiters : (c s : ℕ) → contains (k.conditions c) s ≡ true → s < k.num_semaphores

abbrev pub gone : Kernel → Thread → List Statement → Kernel
gone k c code = record k {
  threads = put k.threads k.current_thread (some (record c { code = code }));
}

pub go_ok :
    (k : Kernel) (c : Thread) (code : List Statement)
    → k.threads k.current_thread ≡ some c
    → go k code ≡ ok (gone k c code)
unfolding go set_code
go_ok k c code e = ground arith

pub put_self {ℓ} : {A : Type ℓ} (f : ℕ → A) (i : ℕ) (a : A) → put f i a i ≡ a
put_self f i a = if_true a (f i) ((==_iff i i).1 refl)

-- It goes on with code that fits.
pub gone-IsSound :
    (k : Kernel) (c : Thread) (code : List Statement)
    → Runs k c
    → Continues k.level code
    → IsSound (gone k c code)
gone-IsSound k c code r f = record {
  ordered =
      Ordered-set_current r.ordered (record c { code = code }) (ground (arith, r.found, r.status))
        (inl r.not_destroyed)
        (subst (λ st. StatusFits code (some st)) (sym r.status)
          (Continues-StatusFits k.level code f));
  level_fits =
      subst (λ t. Fits k.level (code_of t)) (sym (put_self k.threads k.current_thread _))
        (Continues-Fits k.level code f);
  no_handler = r.no_handler;
  functions_fit = r.functions_fit;
  waiters = r.waiters;
}

-- The step succeeds, leaves the threads in order, and keeps each lock with one thread.
abbrev pub Succeeds : Kernel → Result Kernel → Type 0
Succeeds k r = (k' : Kernel) × (r ≡ ok k') × IsSound k' × Keeps k k'

-- `k` is what the statement has made of `k0` before it goes on.
pub go-Succeeds :
    (k0 k : Kernel) (c : Thread) (code : List Statement)
    → Runs k c
    → Continues k.level code
    → Keeps k0 (gone k c code)
    → Succeeds k0 (go k code)
go-Succeeds k0 k c code r f m =
    (gone k c code, go_ok k c code r.found, gone-IsSound k c code r f, m)

-- The code of the running thread has kept its role.
pub gone-Excludes :
    (k : Kernel) (c : Thread) (code : List Statement) {old : List Statement} (l s : ℕ)
    → code_of (k.threads k.current_thread) ≡ old
    → role l s code ≡ role l s old
    → Excludes l s k
    → Excludes l s (gone k c code)
gone-Excludes k c code l s e same x = (
  x.0,
  Exclusive-stays l s k.threads k.current_thread _ refl refl (same ∙ sym (ap (role l s) e)) x.1,
)

pub Runs-of :
    (k : Kernel) (code : List Statement)
    → IsOrdered k
    → code_of (k.threads k.current_thread) ≡ code
    → ((st : Option ThreadStatus) → StatusFits code st → st ≡ some running)
    → (IsResumed code → ⊥)
    → k.in_handler ≡ false
    → ((f : ℕ) → Continues int_on (k.functions f ++ finish ∷ []))
    → ((c s : ℕ) → contains (k.conditions c) s ≡ true → s < k.num_semaphores)
    → (c : Thread) × Runs k c × (c.code ≡ code)
Runs-of k code o e plain fresh h f w =
    let st : status_of (k.threads k.current_thread) ≡ some running =
      plain _
        (subst (λ q. StatusFits q (status_of (k.threads k.current_thread))) e o.current_status) in
    elim (Option-cases (k.threads k.current_thread)) [
      | inl gone_thread ↦ absurd (ground (arith, st))
      | inr (c, found) ↦ (
        c,
        record {
          found = found;
          status = ground (arith, st);
          not_destroyed = not_resumed;
          ordered = o;
          no_handler = h;
          functions_fit = f;
          waiters = w;
        },
        ground (arith, e),
      )
    ]
  where
    not_resumed : k.to_be_destroyed ≡ none
    not_resumed = elim o.destroys [ inl d ↦ d | inr r ↦ absurd (fresh (subst IsResumed e r)) ]

-- The statements that a running thread meets.
module _ (k : Kernel) (statement : Statement) (rest : List Statement) (s : IsSound k)
    (e : code_of (k.threads k.current_thread) ≡ statement ∷ rest) where
  pub found_Runs :
      ((st : Option ThreadStatus) → StatusFits (statement ∷ rest) st → st ≡ some running)
      → (IsResumed (statement ∷ rest) → ⊥)
      → (c : Thread) × Runs k c × (c.code ≡ statement ∷ rest)
  found_Runs plain fresh =
      Runs-of k (statement ∷ rest) s.ordered e plain fresh s.no_handler s.functions_fit s.waiters

  pub found_Fits : Fits k.level (statement ∷ rest)
  found_Fits = subst (Fits k.level) e s.level_fits

-- The fields that `Runs` does not speak of.
pub Runs-update :
    {k : Kernel} {c : Thread}
    → Runs k c
    → (level : IntStatus) (status : MachineStatus) (yields : Bool) (locks : ℕ → Lock)
    → Runs (record k { level = level; status = status; yield_on_return = yields; locks = locks }) c
Runs-update r level status yields locks = record {
  found = r.found;
  status = r.status;
  not_destroyed = r.not_destroyed;
  ordered = r.ordered;
  no_handler = r.no_handler;
  functions_fit = r.functions_fit;
  waiters = r.waiters;
}

pub Runs-disabled : {k : Kernel} {c : Thread} → Runs k c → Runs (disabled k) c
Runs-disabled {k} r = Runs-update r int_off k.status k.yield_on_return k.locks

-- What handlers leave alone is enough for the thread to run on.
pub Runs-kept :
    {k k' : Kernel} (code : List Statement)
    → Kept k k'
    → IsOrdered k'
    → code_of (k.threads k.current_thread) ≡ code
    → ((st : Option ThreadStatus) → StatusFits code st → st ≡ some running)
    → (IsResumed code → ⊥)
    → k.in_handler ≡ false
    → ((f : ℕ) → Continues int_on (k.functions f ++ finish ∷ []))
    → ((c s : ℕ) → contains (k.conditions c) s ≡ true → s < k.num_semaphores)
    → (c : Thread) × Runs k' c × (c.code ≡ code)
Runs-kept {k} {k'} code a o e plain fresh h f w =
    Runs-of k' code o
      (ap (λ t. code_of (k'.threads t)) a.current_thread ∙ a.code k.current_thread ∙ e) plain fresh
      (a.in_handler ∙ h)
      (λ i. subst (λ g. Continues int_on (g i ++ finish ∷ [])) (sym a.functions) (f i))
      (λ c n m.
        subst (λ bound. n < bound) (sym a.num_semaphores)
          (w c n (subst (λ g. contains (g c) n ≡ true) a.conditions m)))
