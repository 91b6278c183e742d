-- ===== src/Base/Members.antt =====
-- What is in a sequence of numbers, and in one that is longer by an element.
use nach_os.Base.Arrays.{contains, Distinct}
use Prim.Native.Nat.{ℕ}
use mathlib.Core.Path.{◌≡◌}
use mathlib.Core.Bool.{false, ◌||◌}
use mathlib.Core.List.{List, [], ◌∷◌, ◌++◌}
use native.Mathlib.Omega.{arith}
use nach_os.Base.Tests.{◌==◌}

pub contains-append :
    (xs : List ℕ) (x t : ℕ) → contains (xs ++ x ∷ []) t ≡ (contains xs t || (x == t))
contains-append [] x t = ground arith
contains-append (y ∷ xs) x t = ground (arith, contains-append xs x t)

pub Distinct-append :
    (xs : List ℕ) (x : ℕ) → Distinct xs → contains xs x ≡ false → Distinct (xs ++ x ∷ [])
Distinct-append [] x d h = ground arith
Distinct-append (y ∷ xs) x d h =
    (ground (arith, contains-append xs x y), Distinct-append xs x d.1 (ground arith))
