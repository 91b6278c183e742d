-- ===== src/Machine/Arithmetic.antt =====
-- The arithmetic of OneInstruction in machine/mipssim.cc on words: sums, shifts, quotients, and the
-- bytes that partial loads and stores merge.
use nach_os.Base.{
  ℕ, ◌+◌, ◌-◌, ◌*◌, ◌/◌, ◌%◌, ◌^◌, Bool, not, ◌&&◌, Result, ok, fault, bit_and, bit_or, ltb, ◌==◌,
  if◌then◌else◌,
}
use nach_os.Machine.Multiply.{is_negative, negate}

-- Arithmetic on words: sum, difference, the shifts, and the order of signed integers.
abbrev pub add_word : ℕ → ℕ → ℕ
add_word a b = (a + b) % 2 ^ 32

abbrev pub sub_word : ℕ → ℕ → ℕ
sub_word a b = (a + (2 ^ 32 - b)) % 2 ^ 32

abbrev pub shift_left : ℕ → ℕ → ℕ
shift_left w k = w * 2 ^ k % 2 ^ 32

-- `>>` of a signed integer keeps the sign.
abbrev pub shift_right : ℕ → ℕ → ℕ
shift_right w k = w / 2 ^ k + (if is_negative w then 2 ^ 32 - 2 ^ (32 - k) else 0)

abbrev pub less_signed : ℕ → ℕ → Bool
less_signed a b = ltb (add_word a (2 ^ 31)) (add_word b (2 ^ 31))

abbrev pub flag : Bool → ℕ
flag c = if c then 1 else 0

-- Division of signed integers rounds to zero. The one quotient that is not a signed integer stops
-- the host.
abbrev size_of : ℕ → ℕ
size_of w = if is_negative w then negate w else w

unfoldable pub divide_signed : ℕ → ℕ → Result (ℕ × ℕ)
divide_signed a b =
    let quotient = size_of a / size_of b in
    let rest = size_of a % size_of b in
    let same = if is_negative a then is_negative b else not (is_negative b) in
    let results =
      ok
        (if same then quotient else negate quotient, if is_negative a then negate rest else rest) in
    if a == 2 ^ 31 && b == 2 ^ 32 - 1 then fault else results

-- The merged words, by the offset of the byte in its word: the loaded one for LWL and LWR, the one
-- to store for SWL and SWR.
abbrev pub merge_left : ℕ → ℕ → ℕ → ℕ
merge_left byte n v =
    if byte == 3
    then v
    else if byte == 2
    then bit_or (bit_and n 255) (shift_left v 8)
    else if byte == 1
    then bit_or (bit_and n 65535) (shift_left v 16)
    else bit_or (bit_and n 16777215) (shift_left v 24)

abbrev pub merge_right : ℕ → ℕ → ℕ → ℕ
merge_right byte n v =
    if byte == 3
    then bit_or (bit_and n 4294967040) (bit_and (shift_right v 24) 255)
    else if byte == 2
    then bit_or (bit_and n 4294901760) (bit_and (shift_right v 16) 65535)
    else if byte == 1
    then bit_or (bit_and n 4278190080) (bit_and (shift_right v 8) 16777215)
    else v

abbrev pub store_left : ℕ → ℕ → ℕ → ℕ
store_left byte v r =
    if byte == 3
    then r
    else if byte == 2
    then bit_or (bit_and v 4278190080) (bit_and (shift_right r 8) 16777215)
    else if byte == 1
    then bit_or (bit_and v 4294901760) (bit_and (shift_right r 16) 65535)
    else bit_or (bit_and v 4294967040) (bit_and (shift_right r 24) 255)

abbrev pub store_right : ℕ → ℕ → ℕ → ℕ
store_right byte v r =
    if byte == 3
    then bit_or (bit_and v 16777215) (shift_left r 24)
    else if byte == 2
    then bit_or (bit_and v 65535) (shift_left r 16)
    else if byte == 1
    then bit_or (bit_and v 255) (shift_left r 8)
    else r

-- LB, LBU, LH and LHU: the value with its sign, or without.
abbrev pub extend_byte : Bool → ℕ → ℕ
extend_byte signed v =
    if not (bit_and v 128 == 0) && signed then bit_or v 4294967040 else bit_and v 255

abbrev pub extend_half : Bool → ℕ → ℕ
extend_half signed v =
    if not (bit_and v 32768 == 0) && signed then bit_or v 4294901760 else bit_and v 65535
