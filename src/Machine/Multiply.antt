-- ===== src/Machine/Multiply.antt =====
-- Mult of machine/mipssim.cc: the double-length product of two words, by shifting and adding.
pub mod Laws
use nach_os.Base.{
  ℕ, zero, suc, ◌+◌, ◌-◌, ◌*◌, ◌/◌, ◌%◌, ◌^◌, Bool, true, false, not, ◌&&◌, ◌||◌, ltb, leb, ◌==◌,
  if◌then◌else◌,
}

-- A word read as a signed integer is negative.
abbrev pub is_negative : ℕ → Bool
is_negative w = leb (2 ^ 31) w

-- `-a`, `~a` and `a >> 1` of a signed word
abbrev pub negate : ℕ → ℕ
negate w = (2 ^ 32 - w) % 2 ^ 32

abbrev pub invert : ℕ → ℕ
invert w = 2 ^ 32 - 1 - w

abbrev pub halve_signed : ℕ → ℕ
halve_signed a = a / 2 + (if is_negative a then 2 ^ 31 else 0)

-- The variables of the loop.
pub record Product : Type 0 where
  pub b_lo : ℕ
  pub b_hi : ℕ
  pub lo : ℕ
  pub hi : ℕ

-- `lo += bLo`, with its carry, and `hi += bHi`
abbrev pub add_double : Product → Product
add_double p =
    let lo = (p.lo + p.b_lo) % 2 ^ 32 in
    let carried = if ltb lo p.b_lo then (p.hi + 1) % 2 ^ 32 else p.hi in
    record p { lo = lo; hi = (carried + p.b_hi) % 2 ^ 32 }

-- `bHi <<= 1`, with the highest bit of `bLo`, and `bLo <<= 1`
abbrev pub shift_double : Product → Product
shift_double p = record p {
  b_hi = (p.b_hi * 2) % 2 ^ 32 + (if leb (2 ^ 31) p.b_lo then 1 else 0);
  b_lo = (p.b_lo * 2) % 2 ^ 32;
}

-- The loop, with `n` rounds left. It ends early when no bit of `a` is left.
unfoldable pub multiply_from : ℕ → ℕ → Product → Product
multiply_from zero a p = p
multiply_from (suc n) a p =
    let odd = a % 2 == 1 in
    let added = if odd then add_double p else p in
    let rest = multiply_from n (halve_signed a) (shift_double added) in
    if odd && a / 2 == 0 then added else rest

-- The two's complement of the double word.
abbrev pub negate_double : Product → Product
negate_double p =
    let lo = (invert p.lo + 1) % 2 ^ 32 in
    record p { lo = lo; hi = if lo == 0 then (invert p.hi + 1) % 2 ^ 32 else invert p.hi }

-- Mult: the high and the low word.
unfoldable pub mult : ℕ → ℕ → Bool → ℕ × ℕ
mult a b signed =
    let negative_a = signed && is_negative a in
    let negative_b = signed && is_negative b in
    let a' = if negative_a then negate a else a in
    let b' = if negative_b then negate b else b in
    let p = multiply_from 32 a' (record { b_lo = b'; b_hi = 0; lo = 0; hi = 0 }) in
    let q = if (if negative_a then not negative_b else negative_b) then negate_double p else p in
    if a == 0 || b == 0 then (0, 0) else (q.hi, q.lo)
