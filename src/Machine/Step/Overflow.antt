-- ===== src/Machine/Step/Overflow.antt =====
-- ADD, ADDI and SUB against the sums and differences of signed integers.
use nach_os.Base.{
  ℕ, ◌+◌, ◌%◌, ◌^◌, ◌≤◌, ◌<◌, ◌≡◌, refl, ◌∙◌, ap, ap₂, sym, zero, suc, Bool, true, false, not, ◌&&◌,
  ◌⊎◌, inl, inr, Bool-cases, ok, arith, bit_xor, ◌==◌, if◌then◌else◌,
}
use nach_os.Base.Words.{bit, bit-bit_xor, bit_xor-lt, bit_le_one}
use Prim.Native.Nat.{differ}
use native.Mathlib.Decide.{dec_lt}
use nach_os.Machine.{Machine, overflow_exception, reg, set_reg}
use nach_os.Machine.Multiply.{is_negative}
use nach_os.Machine.Decode.{Instruction, op_add, op_sub}
use nach_os.Machine.Arithmetic.{add_word, sub_word}
use nach_os.Machine.Step.{finished, stopped, execute}

is_negative-bit : (w : ℕ) → w < 2 ^ 32 → is_negative w ≡ (bit w 31 == 1)
unfolding bit
is_negative-bit w h = ground arith

sign_of_xor :
    (a b : ℕ)
    → a < 2 ^ 32
    → b < 2 ^ 32
    → is_negative (bit_xor a b) ≡ (if is_negative a then not (is_negative b) else is_negative b)
sign_of_xor a b p q =
    is_negative-bit (bit_xor a b) (bit_xor-lt 32 a b p q)
    ∙ ap (λ t. t == 1) (bit-bit_xor 31 a b)
    ∙ by_digits (bit a 31) (bit b 31) (bit_le_one a 31) (bit_le_one b 31)
    ∙ ap₂ (λ s t. if s then not t else t) (sym (is_negative-bit a p)) (sym (is_negative-bit b q))
  where
    by_digits :
        (x y : ℕ) → x ≤ 1 → y ≤ 1 → (differ x y == 1) ≡ (if x == 1 then not (y == 1) else y == 1)
    by_digits zero y h k = refl
    by_digits (suc zero) zero h k = refl
    by_digits (suc zero) (suc zero) h k = refl
    by_digits (suc zero) (suc (suc y)) h k = absurd (omega arith)
    by_digits (suc (suc x)) y h k = absurd (omega arith)

-- The signed integer that a word is, plus 2 ^ 31.
abbrev pub bias : ℕ → ℕ
bias w = (w + 2 ^ 31) % 2 ^ 32

-- The sum of two words as signed integers is one, and `sum` is it; or it is none.
abbrev pub Sum : ℕ → ℕ → ℕ → Type 0
Sum a b sum = bias sum + 2 ^ 31 ≡ bias a + bias b

abbrev pub NoSum : ℕ → ℕ → Type 0
NoSum a b = (bias a + bias b < 2 ^ 31) ⊎ (2 ^ 31 + 2 ^ 32 ≤ bias a + bias b)

-- The same of the difference.
abbrev pub Difference : ℕ → ℕ → ℕ → Type 0
Difference a b diff = bias diff + bias b ≡ bias a + 2 ^ 31

abbrev pub NoDifference : ℕ → ℕ → Type 0
NoDifference a b = (bias a + 2 ^ 31 < bias b) ⊎ (bias b + 2 ^ 31 ≤ bias a)

-- Whether two words have different signs.
abbrev differ_in_sign : ℕ → ℕ → Bool
differ_in_sign a b = if is_negative a then not (is_negative b) else is_negative b

Sum-cases :
    (a b : ℕ)
    → a < 2 ^ 32
    → b < 2 ^ 32
    → let overflow = not (differ_in_sign a b) && differ_in_sign a (add_word a b) in
      ((overflow ≡ false) × Sum a b (add_word a b)) ⊎ ((overflow ≡ true) × NoSum a b)
Sum-cases a b p q =
    elim (Bool-cases (not (differ_in_sign a b) && differ_in_sign a (add_word a b))) [
      | inr fits ↦ inl (fits, ground arith)
      | inl over ↦ elim (dec_lt (bias a + bias b) (2 ^ 31)) [
        | yes low ↦ inr (over, inl low)
        | no high ↦ inr (over, inr (ground arith))
      ]
    ]

Difference-cases :
    (a b : ℕ)
    → a < 2 ^ 32
    → b < 2 ^ 32
    → let overflow = differ_in_sign a b && differ_in_sign a (sub_word a b) in
      ((overflow ≡ false) × Difference a b (sub_word a b)) ⊎ ((overflow ≡ true) × NoDifference a b)
Difference-cases a b p q =
    elim (Bool-cases (differ_in_sign a b && differ_in_sign a (sub_word a b))) [
      | inr fits ↦ inl (fits, ground arith)
      | inl over ↦ elim (dec_lt (bias a + 2 ^ 31) (bias b)) [
        | yes low ↦ inr (over, inl low)
        | no high ↦ inr (over, inr (ground arith))
      ]
    ]

module _ (i : Instruction) (m : Machine) (pc_after : ℕ) (p : reg m i.rs < 2 ^ 32) where
  -- ADD of two registers whose sum as signed integers is a signed integer writes that sum; else it
  -- raises the overflow exception and changes nothing.
  pub execute-op_add :
      reg m i.rt < 2 ^ 32
      → let a = reg m i.rs in
        let b = reg m i.rt in
        ((execute op_add i m pc_after ≡ ok (finished (set_reg m i.rd (add_word a b)) pc_after 0 0))
          × Sum a b (add_word a b))
        ⊎ ((execute op_add i m pc_after ≡ ok (stopped overflow_exception 0 m)) × NoSum a b)
  unfolding execute
  execute-op_add q =
      let a = reg m i.rs in
      let b = reg m i.rt in
      let e = sign_of_xor a b p q in
      let f = sign_of_xor a (add_word a b) p (omega arith) in
      elim (Sum-cases a b p q) [
        | inl (fits, sum) ↦ inl (rw (e, f, fits) refl, sum)
        | inr (over, outside) ↦ inr (rw (e, f, over) refl, outside)
      ]

  -- SUB of two registers whose difference as signed integers is a signed integer writes that
  -- difference; else it raises the overflow exception and changes nothing.
  pub execute-op_sub :
      reg m i.rt < 2 ^ 32
      → let a = reg m i.rs in
        let b = reg m i.rt in
        ((execute op_sub i m pc_after ≡ ok (finished (set_reg m i.rd (sub_word a b)) pc_after 0 0))
          × Difference a b (sub_word a b))
        ⊎ ((execute op_sub i m pc_after ≡ ok (stopped overflow_exception 0 m)) × NoDifference a b)
  unfolding execute
  execute-op_sub q =
      let a = reg m i.rs in
      let b = reg m i.rt in
      let e = sign_of_xor a b p q in
      let f = sign_of_xor a (sub_word a b) p (omega arith) in
      elim (Difference-cases a b p q) [
        | inl (fits, difference) ↦ inl (rw (e, f, fits) refl, difference)
        | inr (over, outside) ↦ inr (rw (e, f, over) refl, outside)
      ]
