-- ===== src/Kernel/Interrupt/Queue.antt =====
-- The pending interrupts: their order, and how many are due.
use nach_os.Base.{
  ltb, if◌then◌else◌, Bool-cases, inl, inr, ℕ, ◌+◌, ◌≤◌, ◌<◌, ◌≡◌, refl, List, [], ◌∷◌, arith, leb,
  if◌then◌else◌, length, All,
}
use nach_os.Kernel.{PendingInterrupt}
use nach_os.Kernel.Interrupt.{insert}

-- No interrupt stands behind one that is later.
abbrev pub IsSorted : List PendingInterrupt → Type 0
IsSorted [] = Unit {0}
IsSorted (x ∷ pending) = All (λ y. x.when ≤ y.when) pending × IsSorted pending

-- The number of interrupts that are due at a time.
abbrev pub due : ℕ → List PendingInterrupt → ℕ
due now [] = 0
due now (x ∷ pending) = (if leb x.when now then 1 else 0) + due now pending

pub All-insert :
    (P : PendingInterrupt → Type 0) (x : PendingInterrupt) (pending : List PendingInterrupt)
    → P x
    → All P pending
    → All P (insert x pending)
unfolding insert
All-insert P x [] h a = (h, tt)
All-insert P x (y ∷ pending) h a = elim (Bool-cases (ltb x.when y.when)) [
  | inl first ↦ rw first (h, (a.0, a.1))
  | inr later ↦ rw later (a.0, All-insert P x pending h a.1)
]

All-le :
    (m n : ℕ) (pending : List PendingInterrupt)
    → m ≤ n
    → All (λ y. n ≤ y.when) pending
    → All (λ y. m ≤ y.when) pending
All-le m n [] h a = tt
All-le m n (y ∷ pending) h a = (omega arith, All-le m n pending h a.1)

pub insert-IsSorted :
    (x : PendingInterrupt) (pending : List PendingInterrupt)
    → IsSorted pending
    → IsSorted (insert x pending)
unfolding insert
insert-IsSorted x [] s = (tt, tt)
insert-IsSorted x (y ∷ pending) s = ground (
  arith,
  insert-IsSorted x pending s.1,
  All-insert (λ z. y.when ≤ z.when) x pending,
  All-le x.when y.when pending,
)

pub due-insert :
    (now : ℕ) (x : PendingInterrupt) (pending : List PendingInterrupt)
    → now < x.when
    → due now (insert x pending) ≡ due now pending
unfolding insert
due-insert now x [] h = ground arith
due-insert now x (y ∷ pending) h = ground (arith, due-insert now x pending h)

pub due-le-length : (now : ℕ) (pending : List PendingInterrupt) → due now pending ≤ length pending
due-le-length now [] = omega arith
due-le-length now (x ∷ pending) = ground (arith, due-le-length now pending)

-- Behind an interrupt that is not due none is due.
pub due-IsSorted :
    (now : ℕ) (x : PendingInterrupt) (pending : List PendingInterrupt)
    → now < x.when
    → All (λ y. x.when ≤ y.when) pending
    → due now pending ≡ 0
due-IsSorted now x [] h a = refl
due-IsSorted now x (y ∷ pending) h a = ground (arith, due-IsSorted now x pending h a.1)
