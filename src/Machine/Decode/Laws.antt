-- ===== src/Machine/Decode/Laws.antt =====
-- Decode against the formats of an instruction word.
use nach_os.Base.{
  ℕ, ◌+◌, ◌-◌, ◌*◌, ◌/◌, ◌%◌, ◌^◌, ◌<◌, ◌≡◌, ◌≢◌, refl, Bool, true, false, get_or, arith, leb,
  if◌then◌else◌,
}
use nach_os.Machine.Decode.{
  OpCode, special, bcond, op_res, i_format, op_table, special_table, decode, op_code_of, branch_of,
  info, op_bltz, op_bgez, op_bltzal, op_bgezal, op_unimp,
}

-- The fields of an instruction word of the register format, and of the immediate format.
abbrev pub r_word : ℕ → ℕ → ℕ → ℕ → ℕ → ℕ
r_word rs rt rd shamt funct = rs * 2 ^ 21 + rt * 2 ^ 16 + rd * 2 ^ 11 + shamt * 2 ^ 6 + funct

abbrev pub i_word : ℕ → ℕ → ℕ → ℕ → ℕ
i_word op rs rt immediate = op * 2 ^ 26 + rs * 2 ^ 21 + rt * 2 ^ 16 + immediate

abbrev pub is_final : OpCode → Bool
is_final special = false
is_final bcond = false
is_final other = true

-- The branches on one register, by their second register field.
abbrev pub Branches : ℕ → OpCode → Type 0
Branches rt c =
    (rt ≡ 0 → c ≡ op_bltz)
    × (rt ≡ 1 → c ≡ op_bgez)
    × (rt ≡ 16 → c ≡ op_bltzal)
    × (rt ≡ 17 → c ≡ op_bgezal)
    × (rt ≢ 0 → rt ≢ 1 → rt ≢ 16 → rt ≢ 17 → c ≡ op_unimp)

-- Decode of a word of the register format gives its fields, with the operation of its last field.
pub decode-r_word :
    (rs rt rd shamt funct : ℕ)
    → rs < 32
    → rt < 32
    → rd < 32
    → shamt < 32
    → funct < 64
    → decode (r_word rs rt rd shamt funct) ≡ (record {
      op_code = get_or special_table funct op_res;
      rs = rs;
      rt = rt;
      rd = rd;
      extra = shamt;
    })
unfolding decode
decode-r_word rs rt rd shamt funct h1 h2 h3 h4 h5 =
    let w = r_word rs rt rd shamt funct in
    let op : w / 2 ^ 26 % 2 ^ 6 ≡ 0 = omega arith in
    let e1 : w / 2 ^ 21 % 2 ^ 5 ≡ rs = omega arith in
    let e2 : w / 2 ^ 16 % 2 ^ 5 ≡ rt = omega arith in
    let e3 : w / 2 ^ 11 % 2 ^ 5 ≡ rd = omega arith in
    let e4 : w / 2 ^ 6 % 2 ^ 5 ≡ shamt = omega arith in
    let e5 : w % 2 ^ 6 ≡ funct = omega arith in rw (op, e1, e2, e3, e4, e5) refl

-- Decode of a word of the immediate format gives its registers, the immediate extended with its sign
-- to a word, and the operation of its first field, or for a branch on one register BLTZ, BGEZ,
-- BLTZAL or BGEZAL where its second register field is 0, 1, 16 or 17, and else an unimplemented one.
pub decode-i_word :
    (op rs rt immediate : ℕ)
    → op < 64
    → rs < 32
    → rt < 32
    → immediate < 2 ^ 16
    → (get_or op_table op (info op_res i_format)).format ≡ i_format
    → let i = decode (i_word op rs rt immediate) in
      let c = (get_or op_table op (info op_res i_format)).op_code in
      (i.rs ≡ rs)
      × (i.rt ≡ rt)
      × (i.extra ≡ (if leb (2 ^ 15) immediate then immediate + (2 ^ 32 - 2 ^ 16) else immediate))
      × (is_final c ≡ true → i.op_code ≡ c)
      × (c ≡ bcond → Branches rt i.op_code)
unfolding decode
decode-i_word op rs rt immediate h1 h2 h3 h4 f =
    let w = i_word op rs rt immediate in
    let e0 : w / 2 ^ 26 % 2 ^ 6 ≡ op = omega arith in
    let e1 : w / 2 ^ 21 % 2 ^ 5 ≡ rs = omega arith in
    let e2 : w / 2 ^ 16 % 2 ^ 5 ≡ rt = omega arith in
    let e3 : w % 2 ^ 16 ≡ immediate = omega arith in
    (
      e1,
      e2,
      rw (e0, f, e3) refl,
      λ final. rw e0 (final_code _ w final),
      λ branch. rw (e0, branch, e2) (branches rt),
    )
  where
    branches : (rt : ℕ) → Branches rt (branch_of rt)
    branches rt = (
      λ e. ground arith,
      λ e. ground arith,
      λ e. ground arith,
      λ e. ground arith,
      λ n0 n1 n16 n17. ground arith,
    )

    final_code : (c : OpCode) (value : ℕ) → is_final c ≡ true → op_code_of c value ≡ c
    final_code special value h = cc
    final_code bcond value h = cc
    final_code other value h = refl
