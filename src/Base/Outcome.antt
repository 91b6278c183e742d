-- ===== src/Base/Outcome.antt =====
-- The outcome of code that may stop: `abort` where an ASSERT fails (lib/debug.h: it calls Abort),
-- `fault` where the
-- code would read or write outside an array or through a pointer to nothing, where the host stops
-- it, or where a loop of the model has no rounds left.
use mathlib.Core.Path.{◌≡◌, ap}
use mathlib.Core.Bool.{Bool, true, false}
use mathlib.Core.Option.{Option, none, some}

pub data Result {ℓ} (A : Type ℓ) : Type ℓ where
  ok : A → Result A
  abort : Result A
  fault : Result A

-- ASSERT
abbrev pub assert : Bool → Result (Unit {0})
assert true = ok tt
assert false = abort

-- An access to an array, which faults out of bounds.
abbrev pub in_bounds {ℓ} : {A : Type ℓ} → Option A → Result A
in_bounds none = fault
in_bounds (some a) = ok a

-- What follows runs only after `ok`.
infixl 5 ◌>>=◌ ◌>>◌
abbrev pub ◌>>=◌ {ℓ κ} : {S : Type ℓ} {T : Type κ} → Result S → (S → Result T) → Result T
ok s >>= next = next s
abort >>= next = abort
fault >>= next = fault

abbrev pub ◌>>◌ {κ} : {T : Type κ} → Result (Unit {0}) → Result T → Result T
first >> next = first >>= λ _. next

pub >>=-ok {ℓ κ} :
    {S : Type ℓ} {T : Type κ} {m : Result S} {s : S} (next : S → Result T)
    → m ≡ ok s
    → (m >>= next) ≡ next s
>>=-ok next e = ap (λ m. m >>= next) e
