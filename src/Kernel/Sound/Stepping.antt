-- ===== src/Kernel/Sound/Stepping.antt =====
-- Every step of a machine in order succeeds, and so every machine that a program reaches is in
-- order.
use nach_os.Base.{
  ℕ, ◌≡◌, refl, inl, inr, ◌∙◌, ap, subst, true, false, some, List, [], ◌∷◌, List-cases,
  Option-cases, ok, arith, Bool-cases,
}
use nach_os.Kernel.{
  Statement, p_enter, p_loop, v_enter, acquire, hold, release, wait, signal, broadcast, set_level,
  one_tick, set_status, fork, begin, yield, finish, halt, sleep_loop, switched, Thread, Kernel,
}
use nach_os.Kernel.Step.{exec, step}
use nach_os.Kernel.Sound.{Fits, code_of, IsSound}
use nach_os.Kernel.Mutex.{Excludes}
use nach_os.Kernel.Sound.Steps.{Lawful, Succeeds}
use nach_os.Kernel.Sound.Calls.{
  p_enter-Succeeds, v_enter-Succeeds, acquire-Succeeds, hold-Succeeds, release-Succeeds,
  wait-Succeeds, signal-Succeeds, broadcast-Succeeds, set_level-Succeeds, set_status-Succeeds,
}
use nach_os.Kernel.Sound.Switching.{p_loop-Succeeds}
use nach_os.Kernel.Sound.Sleeping.{finish-Succeeds, sleep_loop-Succeeds}
use nach_os.Kernel.Sound.Resuming.{
  switched-Succeeds, begin-Succeeds, one_tick-Succeeds, fork-Succeeds, yield-Succeeds,
}

halt-Succeeds : (k : Kernel) (rest : List Statement) → IsSound k → Succeeds k (exec halt rest k)
unfolding exec
halt-Succeeds k rest s = (
  record k { halted = true },
  refl,
  record {
    ordered = s.ordered;
    level_fits = s.level_fits;
    no_handler = s.no_handler;
    functions_fit = s.functions_fit;
    waiters = s.waiters;
  },
  λ l m x. x,
)

exec-Succeeds :
    (statement : Statement) (k : Kernel) (rest : List Statement)
    → IsSound k
    → code_of (k.threads k.current_thread) ≡ statement ∷ rest
    → Lawful k statement
    → Succeeds k (exec statement rest k)
exec-Succeeds (p_enter n) k rest s e l = p_enter-Succeeds k rest s n e
exec-Succeeds (p_loop n) k rest s e l = p_loop-Succeeds k rest s n e
exec-Succeeds (v_enter n) k rest s e l = v_enter-Succeeds k rest s n e
exec-Succeeds (acquire n) k rest s e l = acquire-Succeeds k rest s n e
exec-Succeeds (hold n) k rest s e l = hold-Succeeds k rest s n e
exec-Succeeds (release n) k rest s e l = release-Succeeds k rest s n e l
exec-Succeeds (wait n m) k rest s e l = wait-Succeeds k rest s n m e l
exec-Succeeds (signal n m) k rest s e l = signal-Succeeds k rest s n m e l
exec-Succeeds (broadcast n m) k rest s e l = broadcast-Succeeds k rest s n m e
exec-Succeeds (set_level now) k rest s e l = set_level-Succeeds k rest s now e
exec-Succeeds one_tick k rest s e l = one_tick-Succeeds k rest s e
exec-Succeeds (set_status st) k rest s e l = set_status-Succeeds k rest s st e
exec-Succeeds (fork t f) k rest s e l = fork-Succeeds k rest s t f e l
exec-Succeeds begin k rest s e l = begin-Succeeds k rest s e
exec-Succeeds yield k rest s e l = yield-Succeeds k rest s e
exec-Succeeds finish k rest s e l = finish-Succeeds k rest s e
exec-Succeeds halt k rest s e l = halt-Succeeds k rest s
exec-Succeeds (sleep_loop finishing) k rest s e l = sleep_loop-Succeeds k rest s finishing e
exec-Succeeds switched k rest s e l = switched-Succeeds k rest s e

-- What the next statement asks of the program.
abbrev pub Asks : Kernel → List Statement → Type 0
Asks k [] = Unit {0}
Asks k (statement ∷ rest) = Lawful k statement

step-exec :
    (k : Kernel) (c : Thread) (statement : Statement) (rest : List Statement)
    → k.halted ≡ false
    → k.threads k.current_thread ≡ some c
    → c.code ≡ statement ∷ rest
    → step k ≡ exec statement rest k
unfolding step
step-exec k c statement rest h found e = ground arith

step-halted : (k : Kernel) → k.halted ≡ true → step k ≡ ok k
unfolding step
step-halted k h = ground arith

-- A step of a machine in order succeeds and leaves it in order.
pub step_lem :
    (k : Kernel) → IsSound k → Asks k (code_of (k.threads k.current_thread)) → Succeeds k (step k)
step_lem k s l = elim (Bool-cases k.halted) [
  | inl h ↦ (k, step-halted k h, s, λ l m x. x)
  | inr h ↦ elim (Option-cases (k.threads k.current_thread)) [
    | inl gone ↦
        let f : Fits k.level [] = subst (λ t. Fits k.level (code_of t)) gone s.level_fits in
        absurd f
    | inr (c, found) ↦ elim (List-cases c.code) [
      | inl e ↦
          let f : Fits k.level [] = subst (Fits k.level) (ap code_of found ∙ e) s.level_fits in
          absurd f
      | inr (statement, rest, e) ↦
          let here = ap code_of found ∙ e in
          let (k1, e1, s1, m1) = exec-Succeeds statement k rest s here (subst (Asks k) here l) in
          (k1, step-exec k c statement rest h found e ∙ e1, s1, m1)
    ]
  ]
]

-- The machines that the steps of the running threads lead to.
pub data Reaches (k : Kernel) : Kernel → Type 0 where
  start : Reaches k k
  later :
      {k1 k2 : Kernel}
      → Reaches k k1
      → Asks k1 (code_of (k1.threads k1.current_thread))
      → step k1 ≡ ok k2
      → Reaches k k2

pub Reaches-IsSound : {k k' : Kernel} → IsSound k → Reaches k k' → IsSound k'
Reaches-IsSound s start = s
Reaches-IsSound s (later {k1} {k2} r l e) =
    let (k3, e3, s3, m3) = step_lem k1 (Reaches-IsSound s r) l in subst IsSound (cc) s3

pub Reaches-Excludes :
    {k k' : Kernel} (l s : ℕ) → IsSound k → Excludes l s k → Reaches k k' → Excludes l s k'
Reaches-Excludes l s sound x start = x
Reaches-Excludes l s sound x (later {k1} {k2} r a e) =
    let (k3, e3, s3, m3) = step_lem k1 (Reaches-IsSound sound r) a in
    let same : k3 ≡ k2 = cc in subst (Excludes l s) same (m3 l s (Reaches-Excludes l s sound x r))
