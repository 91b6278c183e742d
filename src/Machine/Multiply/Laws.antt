-- ===== src/Machine/Multiply/Laws.antt =====
-- The loop of Mult multiplies.
use nach_os.Base.{
  ℕ, zero, suc, ◌+◌, ◌-◌, ◌*◌, ◌/◌, ◌%◌, ◌^◌, ◌≤◌, ◌<◌, ◌≡◌, refl, ap, ap₂, ◌∙◌, sym, Bool, true,
  false, arith, ◌==◌, ◌&&◌, ◌||◌, if◌then◌else◌, Bool-cases, inl, inr, not,
}
use native.Mathlib.Decide.{ℕ_discrete}
use native.Mathlib.Nat.{
  mul-add, mul-le-mul, mod-lt, mod-eq_of_lt, mul-add-mod_self_left, one-le-pow, pow-suc,
  mod-add-mod, add-mul-mod_self_right, mod-add-div,
}
use nach_os.Machine.Multiply.{
  Product, add_double, shift_double, multiply_from, mult, negate_double, negate, halve_signed,
  is_negative,
}

-- The value of a double word.
abbrev pub double : ℕ → ℕ → ℕ
double hi lo = hi * 2 ^ 32 + lo

IsProduct : Product → Type 0
IsProduct p = (p.b_lo < 2 ^ 32) × (p.b_hi < 2 ^ 32) × (p.lo < 2 ^ 32) × (p.hi < 2 ^ 32)

add_double_lem :
    (p : Product)
    → IsProduct p
    → IsProduct (add_double p)
      × (double (add_double p).hi (add_double p).lo
          ≡ (double p.hi p.lo + double p.b_hi p.b_lo) % 2 ^ 64)
unfolding IsProduct
add_double_lem p v = (ground arith, ground arith)

shift_double_lem :
    (p : Product)
    → IsProduct p
    → IsProduct (shift_double p)
      × (double (shift_double p).b_hi (shift_double p).b_lo ≡ (2 * double p.b_hi p.b_lo) % 2 ^ 64)
unfolding IsProduct
shift_double_lem p v = (ground arith, ground arith)

-- Reducing before adding a multiple makes no difference.
mod_linear : (m x k y : ℕ) → (x % m + k * (y % m)) % m ≡ (x + k * y) % m
mod_linear m x k y =
    mod-add-mod x m (k * (y % m))
    ∙ sym (add-mul-mod_self_right (x + k * (y % m)) (k * (y / m)) m)
    ∙ ap (λ t. t % m) whole
  where
    whole : x + k * (y % m) + k * (y / m) * m ≡ x + k * y
    whole = omega (arith, sym (ap (λ t. k * t) (mod-add-div y m)) ∙ mul-add k (y % m) (m * (y / m)))

mod_double : (a p : ℕ) → 0 < p → a % (2 * p) ≡ a % 2 + 2 * (a / 2 % p)
mod_double a p h =
    ap (λ t. t % (2 * p)) split
    ∙ mul-add-mod_self_left (2 * p) (a / 2 / p) (a % 2 + 2 * (a / 2 % p))
    ∙ mod-eq_of_lt (omega (arith, mod-lt (a / 2) h))
  where
    split : a ≡ 2 * p * (a / 2 / p) + (a % 2 + 2 * (a / 2 % p))
    split = omega (arith, mod-add-div (a / 2) p)

pow_add : (k n : ℕ) → 2 ^ (k + n) ≡ 2 ^ k * 2 ^ n
pow_add zero n = ap (λ t. 2 ^ t) {x = 0 + n} {y = n} (omega arith) ∙ omega arith
pow_add (suc k) n =
    ap (λ t. 2 ^ t) {x = suc k + n} {y = suc (k + n)} (omega arith)
    ∙ omega (arith, pow-suc 2 (k + n), pow_add k n, ap (λ t. t * 2 ^ n) (pow-suc 2 k))

-- The lowest digit, and the others after the shift, which keeps the sign.
halve_signed_lem :
    (n a : ℕ) → n < 32 → a < 2 ^ 32 → a % 2 ^ suc n ≡ a % 2 + 2 * (halve_signed a % 2 ^ n)
halve_signed_lem n a h l =
    ap (λ t. a % t) (pow-suc 2 n ∙ omega arith)
    ∙ mod_double a (2 ^ n) (one-le-pow n 2 (omega arith))
    ∙ ap (λ t. a % 2 + 2 * t) (sym (sign_lost (is_negative a)))
  where
    high : 2 ^ 31 ≡ 2 ^ (31 - n) * 2 ^ n
    high = ap (λ t. 2 ^ t) {x = 31} {y = 31 - n + n} (omega arith) ∙ pow_add (31 - n) n

    sign_lost : (c : Bool) → (a / 2 + (if c then 2 ^ 31 else 0)) % 2 ^ n ≡ a / 2 % 2 ^ n
    sign_lost true =
        ap (λ t. (a / 2 + t) % 2 ^ n) high ∙ add-mul-mod_self_right (a / 2) (2 ^ (31 - n)) (2 ^ n)
    sign_lost false = ap (λ t. t % 2 ^ n) (omega arith)

-- The sum, if a digit is set.
added_lem :
    (c : Bool) (p : Product)
    → IsProduct p
    → let q = (if c then add_double p else p) in
      IsProduct q
      × (double q.hi q.lo
          ≡ (double p.hi p.lo + (if c then 1 else 0) * double p.b_hi p.b_lo) % 2 ^ 64)
      × (double q.b_hi q.b_lo ≡ double p.b_hi p.b_lo)
unfolding IsProduct
added_lem true p v = let (w, e) = add_double_lem p v in (w, e ∙ omega arith, refl)
added_lem false p v = (v, omega arith, refl)

-- The product of what is left of `a` and the shifted `b` is added to the double word.
multiply_from_lem :
    (n a : ℕ) (p : Product)
    → n ≤ 32
    → a < 2 ^ 32
    → IsProduct p
    → IsProduct (multiply_from n a p)
      × (double (multiply_from n a p).hi (multiply_from n a p).lo
          ≡ (double p.hi p.lo + (a % 2 ^ n) * double p.b_hi p.b_lo) % 2 ^ 64)
unfolding multiply_from IsProduct
multiply_from_lem zero a p h l v = let e : a % 1 ≡ 0 = omega arith in (v, rw e (omega arith))
multiply_from_lem (suc n) a p h l v =
    let (w, sum, same) = added_lem (a % 2 == 1) p v in
    elim (Bool-cases (a % 2 == 1 && a / 2 == 0)) [
      | inl last ↦ rw last (
        w,
        sum ∙ ap (λ t. (double p.hi p.lo + t * double p.b_hi p.b_lo) % 2 ^ 64) (one_left last),
      )
      | inr more ↦
          let r = halve_signed a % 2 ^ n in
          let o : ℕ = if a % 2 == 1 then 1 else 0 in
          let b = double p.b_hi p.b_lo in
          let (ws, shifted) = shift_double_lem (if a % 2 == 1 then add_double p else p) w in
          let (w', e) =
            multiply_from_lem n (halve_signed a)
              (shift_double (if a % 2 == 1 then add_double p else p)) (omega arith) (ground arith)
              ws in
          rw more (
            w',
            e
                ∙ ap₂ (λ s t. (s + r * t) % 2 ^ 64) sum (shifted ∙ ap (λ t. (2 * t) % 2 ^ 64) same)
                ∙ mod_linear (2 ^ 64) (double p.hi p.lo + o * b) r (2 * b)
                ∙ ap (λ t. t % 2 ^ 64) regroup,
          )
    ]
  where
    regroup :
        double p.hi p.lo
          + (if a % 2 == 1 then 1 else 0) * double p.b_hi p.b_lo
          + (halve_signed a % 2 ^ n) * (2 * double p.b_hi p.b_lo)
        ≡ double p.hi p.lo + (a % 2 ^ suc n) * double p.b_hi p.b_lo
    regroup =
        let digit : (if a % 2 == 1 then 1 else 0) ≡ a % 2 = ground arith in
        omega (
          arith,
          ap (λ t. t * double p.b_hi p.b_lo) digit,
          ap (λ t. t * double p.b_hi p.b_lo) (halve_signed_lem n a (omega arith) l),
        )

    one_left : (a % 2 == 1 && a / 2 == 0) ≡ true → (if a % 2 == 1 then 1 else 0) ≡ a % 2 ^ suc n
    one_left last =
        let one : a ≡ 1 = ground arith in
        rw one (sym (mod-eq_of_lt (omega (arith, pow-suc 2 n, one-le-pow n 2 (omega arith)))))

negate_double_lem :
    (p : Product)
    → IsProduct p
    → double (negate_double p).hi (negate_double p).lo ≡ (2 ^ 64 - double p.hi p.lo) % 2 ^ 64
unfolding IsProduct
negate_double_lem p v = ground arith

-- The size of a word, and whether it counts as negative.
abbrev pub magnitude : Bool → ℕ → ℕ
magnitude signed w = if signed && is_negative w then 2 ^ 32 - w else w

abbrev pub differs : Bool → ℕ → ℕ → Bool
differs signed a b =
    if signed && is_negative a then not (signed && is_negative b) else signed && is_negative b

small_product : (x y : ℕ) → x < 2 ^ 32 → y < 2 ^ 32 → x * y < 2 ^ 64
small_product x y p q =
    let px : x ≤ 2 ^ 32 - 1 = omega arith in
    let qy : y ≤ 2 ^ 32 - 1 = omega arith in omega (arith, mul-le-mul px qy)

-- The loop from its start.
abbrev start : ℕ → Product
start b = record { b_lo = b; b_hi = 0; lo = 0; hi = 0 }

multiply_lem :
    (a b : ℕ)
    → a < 2 ^ 32
    → b < 2 ^ 32
    → IsProduct (multiply_from 32 a (start b))
      × (double (multiply_from 32 a (start b)).hi (multiply_from 32 a (start b)).lo ≡ a * b)
unfolding IsProduct
multiply_lem a b p q =
    let (v, e) = multiply_from_lem 32 a (start b) (omega arith) p (omega arith) in
    let same : a % 2 ^ 32 ≡ a = omega arith in
    let whole : double 0 0 + a % 2 ^ 32 * double 0 b ≡ a * b =
      omega (arith, ap (λ t. t * b) same) in
    (v, e ∙ ap (λ t. t % 2 ^ 64) whole ∙ mod-eq_of_lt (small_product a b p q))

-- The product with its sign.
signed_product :
    (c : Bool) (p : Product)
    → IsProduct p
    → let q = (if c then negate_double p else p) in
      double q.hi q.lo ≡ (if c then (2 ^ 64 - double p.hi p.lo) % 2 ^ 64 else double p.hi p.lo)
signed_product true p v = negate_double_lem p v
signed_product false p v = refl

word_magnitude :
    (signed : Bool) (w : ℕ)
    → w < 2 ^ 32
    → (if signed && is_negative w then negate w else w) ≡ magnitude signed w
word_magnitude signed w h = ground arith

-- The product of the sizes, with its sign, as a two's complement double word.
abbrev pub product : Bool → ℕ → ℕ → ℕ
product signed a b =
    let size = magnitude signed a * magnitude signed b in
    if differs signed a b then (2 ^ 64 - size) % 2 ^ 64 else size

signless_zero : (c : Bool) → (if c then (2 ^ 64 - 0) % 2 ^ 64 else 0) ≡ 0
signless_zero true = refl
signless_zero false = refl

no_product : (a b : ℕ) (signed : Bool) → (a == 0 || b == 0) ≡ true → product signed a b ≡ 0
no_product a b signed h =
    ap (λ t. if differs signed a b then (2 ^ 64 - t) % 2 ^ 64 else t) nothing
    ∙ signless_zero (differs signed a b)
  where
    nothing : magnitude signed a * magnitude signed b ≡ 0
    nothing = elim (ℕ_discrete a 0) [
      | yes e ↦
          let zero_a : magnitude signed a ≡ 0 = ground (arith, e) in
          ap (λ t. t * magnitude signed b) zero_a ∙ omega arith
      | no ne ↦
          let zero_b : magnitude signed b ≡ 0 = ground (arith, ne) in
          ap (λ t. magnitude signed a * t) zero_b ∙ omega arith
    ]

-- Mult gives the high and the low word of the product: of the unsigned words, or, as a two's
-- complement double word, of the signed ones.
pub mult_lem :
    (a b : ℕ) (signed : Bool)
    → a < 2 ^ 32
    → b < 2 ^ 32
    → double (mult a b signed).0 (mult a b signed).1 ≡ product signed a b
unfolding mult
mult_lem a b signed p q = elim (Bool-cases (a == 0 || b == 0)) [
  | inl zeros ↦ rw zeros (sym (no_product a b signed zeros))
  | inr others ↦
      let ea = word_magnitude signed a p in
      let eb = word_magnitude signed b q in
      let (v, e) =
        multiply_lem (if signed && is_negative a then negate a else a)
          (if signed && is_negative b then negate b else b) (ground arith) (ground arith) in
      rw others (
        signed_product (differs signed a b) _ v
        ∙ ap (λ t. if differs signed a b then (2 ^ 64 - t) % 2 ^ 64 else t) (e ∙ ap₂ ◌*◌ ea eb))
]
