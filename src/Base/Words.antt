-- ===== src/Base/Words.antt =====
-- Bits of machine words at every width, from the digit recursion of the native bit operations.
use Prim.Native.Nat.{digits, bit_xor, differ, bit_xor-bitwise, bit_and-bitwise, bit_or-bitwise, max}
use native.Mathlib.Nat.{pow-suc, one-le-pow}
use Prim.Native.Nat.{ℕ, zero, suc, ◌+◌, ◌-◌, ◌*◌, ◌/◌, ◌%◌, ◌^◌, ◌≤◌, ◌<◌, min, bit_and, bit_or}
use mathlib.Core.Path.{◌≡◌, refl, ap, ◌∙◌}
use native.Mathlib.Omega.{arith}
use nach_os.Base.Tests.{◌==◌, if◌then◌else◌}

-- The digit of weight 2 ^ k.
unfoldable pub bit : ℕ → ℕ → ℕ
bit a zero = a % 2
bit a (suc k) = bit (a / 2) k

abbrev digits_of : (ℕ → ℕ) → (ℕ → ℕ → ℕ) → ℕ → ℕ → ℕ → ℕ
digits_of z f n a b = digits z f n a b

digits-fuel :
    (z : ℕ → ℕ) (f : ℕ → ℕ → ℕ) (n m a b : ℕ)
    → a ≤ n
    → a ≤ m
    → digits_of z f n a b ≡ digits_of z f m a b
digits-fuel z f zero zero a b p q = refl
digits-fuel z f zero (suc m) zero b p q = refl
digits-fuel z f zero (suc m) (suc a) b p q = absurd (omega arith)
digits-fuel z f (suc n) zero zero b p q = refl
digits-fuel z f (suc n) zero (suc a) b p q = absurd (omega arith)
digits-fuel z f (suc n) (suc m) zero b p q = refl
digits-fuel z f (suc n) (suc m) (suc a) b p q =
    ap (λ t. t * 2 + f (suc a % 2) (b % 2))
      (digits-fuel z f n m (suc a / 2) (b / 2) (omega arith) (omega arith))

-- The lowest digit, and the rest.
pub bit_and_step : (m n : ℕ) → bit_and m n ≡ bit_and (m / 2) (n / 2) * 2 + min (m % 2) (n % 2)
bit_and_step zero b = omega (arith, bit_and-bitwise 0 b, bit_and-bitwise 0 (b / 2))
bit_and_step (suc a) b = omega (
  arith,
  bit_and-bitwise (suc a) b,
  bit_and-bitwise (suc a / 2) (b / 2),
  digits-fuel (λ _. zero) min a (suc a / 2) (suc a / 2) (b / 2) (omega arith) (omega arith),
)

pub bit_or_step : (a b : ℕ) → bit_or a b ≡ bit_or (a / 2) (b / 2) * 2 + max (a % 2) (b % 2)
bit_or_step zero b = omega (arith, bit_or-bitwise 0 b, bit_or-bitwise 0 (b / 2))
bit_or_step (suc a) b = omega (
  arith,
  bit_or-bitwise (suc a) b,
  bit_or-bitwise (suc a / 2) (b / 2),
  digits-fuel (λ t. t) max a (suc a / 2) (suc a / 2) (b / 2) (omega arith) (omega arith),
)

bit_and-half : (a b : ℕ) → bit_and a b / 2 ≡ bit_and (a / 2) (b / 2)
bit_and-half a b = omega (arith, bit_and_step a b)

bit_or-half : (a b : ℕ) → bit_or a b / 2 ≡ bit_or (a / 2) (b / 2)
bit_or-half a b = omega (arith, bit_or_step a b)

pub bit_le_one : (a k : ℕ) → bit a k ≤ 1
unfolding bit
bit_le_one a zero = omega arith
bit_le_one a (suc k) = bit_le_one (a / 2) k

pub bit-bit_or : (k a b : ℕ) → bit (bit_or a b) k ≡ max (bit a k) (bit b k)
unfolding bit
bit-bit_or zero a b = omega (arith, bit_or_step a b)
bit-bit_or (suc k) a b = ap (λ t. bit t k) (bit_or-half a b) ∙ bit-bit_or k (a / 2) (b / 2)

pub bit-bit_and : (k a b : ℕ) → bit (bit_and a b) k ≡ min (bit a k) (bit b k)
unfolding bit
bit-bit_and zero a b = omega (arith, bit_and_step a b)
bit-bit_and (suc k) a b = ap (λ t. bit t k) (bit_and-half a b) ∙ bit-bit_and k (a / 2) (b / 2)

two-pow-half : (k : ℕ) → 2 ^ suc k / 2 ≡ 2 ^ k
two-pow-half k = omega (arith, pow-suc 2 k)

pub zero-bit : (k : ℕ) → bit 0 k ≡ 0
unfolding bit
zero-bit zero = refl
zero-bit (suc k) = zero-bit k

-- A power of two has one digit.
pub bit-two_pow : (k j : ℕ) → bit (2 ^ k) j ≡ (if k == j then 1 else 0)
unfolding bit
bit-two_pow zero zero = refl
bit-two_pow zero (suc j) = ground (arith, zero-bit j)
bit-two_pow (suc k) zero = grind (arith, pow-suc 2 k)
bit-two_pow (suc k) (suc j) = ap (λ t. bit t j) (two-pow-half k) ∙ bit-two_pow k j ∙ shift
  where
    shift : ◌≡◌ {A = ℕ} (if k == j then 1 else 0) (if suc k == suc j then 1 else 0)
    shift = ground arith

pub two_pow-lt : (k w : ℕ) → k < w → 2 ^ k < 2 ^ w
two_pow-lt k zero h = absurd (omega arith)
two_pow-lt zero (suc w) h = omega (arith, pow-suc 2 w, one-le-pow w 2)
two_pow-lt (suc k) (suc w) h = omega (arith, pow-suc 2 k, pow-suc 2 w, two_pow-lt k w (omega arith))

-- Complement within a width.
pub bit-complement : (w k a : ℕ) → a < 2 ^ w → k < w → bit (2 ^ w - 1 - a) k ≡ 1 - bit a k
unfolding bit
bit-complement zero k a h l = absurd (omega arith)
bit-complement (suc w) zero a h l = omega (arith, pow-suc 2 w)
bit-complement (suc w) (suc k) a h l =
    ap (λ t. bit t k) halved ∙ bit-complement w k (a / 2) (omega (arith, pow-suc 2 w)) (omega arith)
  where
    halved : (2 ^ suc w - 1 - a) / 2 ≡ 2 ^ w - 1 - a / 2
    halved = omega (arith, pow-suc 2 w)

pub bit_and-zero : (a : ℕ) → bit_and a 0 ≡ 0
bit_and-zero a = go a a (omega arith)
  where
    go : (n b : ℕ) → b ≤ n → bit_and b 0 ≡ 0
    go n zero h = refl
    go zero (suc b) h = absurd (omega arith)
    go (suc n) (suc b) h = omega (arith, bit_and_step (suc b) 0, go n (suc b / 2) (omega arith))

-- `a & (1 << k)` is that digit at its weight.
pub bit_and-two_pow : (k a : ℕ) → bit_and a (2 ^ k) ≡ bit a k * 2 ^ k
unfolding bit
bit_and-two_pow zero a = omega (arith, bit_and_step a 1, bit_and-zero (a / 2))
bit_and-two_pow (suc k) a = omega (
  arith,
  bit_and_step a (2 ^ suc k),
  two-pow-half k,
  pow-suc 2 k,
  ap (λ t. bit_and (a / 2) t) (two-pow-half k),
  bit_and-two_pow k (a / 2),
  ap (λ (t : ℕ). bit (a / 2) k * t) (pow-suc 2 k),
)

-- The bound of a word is kept.
pub bit_or-lt : (w a b : ℕ) → a < 2 ^ w → b < 2 ^ w → bit_or a b < 2 ^ w
bit_or-lt zero a b p q =
    let ea : a ≡ 0 = omega arith in let eb : b ≡ 0 = omega arith in rw (ea, eb) (omega arith)
bit_or-lt (suc w) a b p q = omega (
  arith,
  bit_or_step a b,
  pow-suc 2 w,
  bit_or-lt w (a / 2) (b / 2) (omega (arith, pow-suc 2 w)) (omega (arith, pow-suc 2 w)),
)

pub bit_and-le : (w a b : ℕ) → a < 2 ^ w → bit_and a b ≤ a
bit_and-le zero a b p = let ea : a ≡ 0 = omega arith in rw (ea, bit_and-bitwise 0 b) (omega arith)
bit_and-le (suc w) a b p = omega (
  arith,
  bit_and_step a b,
  pow-suc 2 w,
  bit_and-le w (a / 2) (b / 2) (omega (arith, pow-suc 2 w)),
)

-- Exclusive or.
bit_xor_step : (a b : ℕ) → bit_xor a b ≡ bit_xor (a / 2) (b / 2) * 2 + differ (a % 2) (b % 2)
bit_xor_step zero b = omega (arith, bit_xor-bitwise 0 b, bit_xor-bitwise 0 (b / 2))
bit_xor_step (suc a) b = omega (
  arith,
  bit_xor-bitwise (suc a) b,
  bit_xor-bitwise (suc a / 2) (b / 2),
  digits-fuel (λ t. t) differ a (suc a / 2) (suc a / 2) (b / 2) (omega arith) (omega arith),
)

differ_le_one : (x y : ℕ) → x ≤ 1 → y ≤ 1 → differ x y ≤ 1
differ_le_one zero y p q = q
differ_le_one (suc x) zero p q = p
differ_le_one (suc x) (suc y) p q = differ_le_one x y (omega arith) (omega arith)

bit_xor-half : (a b : ℕ) → bit_xor a b / 2 ≡ bit_xor (a / 2) (b / 2)
bit_xor-half a b =
    omega (arith, bit_xor_step a b, differ_le_one (a % 2) (b % 2) (omega arith) (omega arith))

pub bit-bit_xor : (k a b : ℕ) → bit (bit_xor a b) k ≡ differ (bit a k) (bit b k)
unfolding bit
bit-bit_xor zero a b =
    omega (arith, bit_xor_step a b, differ_le_one (a % 2) (b % 2) (omega arith) (omega arith))
bit-bit_xor (suc k) a b = ap (λ t. bit t k) (bit_xor-half a b) ∙ bit-bit_xor k (a / 2) (b / 2)

pub bit_xor-lt : (w a b : ℕ) → a < 2 ^ w → b < 2 ^ w → bit_xor a b < 2 ^ w
bit_xor-lt zero a b p q =
    let ea : a ≡ 0 = omega arith in let eb : b ≡ 0 = omega arith in rw (ea, eb) (omega arith)
bit_xor-lt (suc w) a b p q = omega (
  arith,
  bit_xor_step a b,
  differ_le_one (a % 2) (b % 2) (omega arith) (omega arith),
  pow-suc 2 w,
  bit_xor-lt w (a / 2) (b / 2) (omega (arith, pow-suc 2 w)) (omega (arith, pow-suc 2 w)),
)
