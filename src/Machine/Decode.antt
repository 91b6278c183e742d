-- ===== src/Machine/Decode.antt =====
-- Instruction::Decode of machine/mipssim.cc with the tables of machine/mipssim.h: the fields of an
-- instruction word. A mask of the lowest k bits is the remainder by 2 ^ k.
pub mod Laws
use nach_os.Base.{
  ℕ, zero, suc, ◌+◌, ◌*◌, ◌/◌, ◌%◌, ◌^◌, Bool, true, false, List, [], ◌∷◌, leb, ◌==◌, if◌then◌else◌,
  get_or,
}

-- The op codes of machine/mipssim.h, with the two values for further decoding.
pub data OpCode : Type 0 where
  op_add op_addi op_addiu op_addu op_and op_andi op_beq op_bgez op_bgezal op_bgtz : OpCode
  op_blez op_bltz op_bltzal op_bne op_div op_divu op_j op_jal op_jalr op_jr op_lb : OpCode
  op_lbu op_lh op_lhu op_lui op_lw op_lwl op_lwr op_mfhi op_mflo op_mthi op_mtlo : OpCode
  op_mult op_multu op_nor op_or op_ori op_rfe op_sb op_sh op_sll op_sllv op_slt : OpCode
  op_slti op_sltiu op_sltu op_sra op_srav op_srl op_srlv op_sub op_subu op_sw : OpCode
  op_swl op_swr op_xor op_xori op_syscall op_unimp op_res special bcond : OpCode

pub data Format : Type 0 where
  i_format j_format r_format : Format

pub record OpInfo : Type 0 where
  pub op_code : OpCode
  pub format : Format

abbrev pub info : OpCode → Format → OpInfo
info op_code format = record { op_code = op_code; format = format }

abbrev pub op_table : List OpInfo
op_table =
    info special r_format
    ∷ info bcond i_format
    ∷ info op_j j_format
    ∷ info op_jal j_format
    ∷ info op_beq i_format
    ∷ info op_bne i_format
    ∷ info op_blez i_format
    ∷ info op_bgtz i_format
    ∷ info op_addi i_format
    ∷ info op_addiu i_format
    ∷ info op_slti i_format
    ∷ info op_sltiu i_format
    ∷ info op_andi i_format
    ∷ info op_ori i_format
    ∷ info op_xori i_format
    ∷ info op_lui i_format
    ∷ info op_unimp i_format
    ∷ info op_unimp i_format
    ∷ info op_unimp i_format
    ∷ info op_unimp i_format
    ∷ info op_res i_format
    ∷ info op_res i_format
    ∷ info op_res i_format
    ∷ info op_res i_format
    ∷ info op_res i_format
    ∷ info op_res i_format
    ∷ info op_res i_format
    ∷ info op_res i_format
    ∷ info op_res i_format
    ∷ info op_res i_format
    ∷ info op_res i_format
    ∷ info op_res i_format
    ∷ info op_lb i_format
    ∷ info op_lh i_format
    ∷ info op_lwl i_format
    ∷ info op_lw i_format
    ∷ info op_lbu i_format
    ∷ info op_lhu i_format
    ∷ info op_lwr i_format
    ∷ info op_res i_format
    ∷ info op_sb i_format
    ∷ info op_sh i_format
    ∷ info op_swl i_format
    ∷ info op_sw i_format
    ∷ info op_res i_format
    ∷ info op_res i_format
    ∷ info op_swr i_format
    ∷ info op_res i_format
    ∷ info op_unimp i_format
    ∷ info op_unimp i_format
    ∷ info op_unimp i_format
    ∷ info op_unimp i_format
    ∷ info op_res i_format
    ∷ info op_res i_format
    ∷ info op_res i_format
    ∷ info op_res i_format
    ∷ info op_unimp i_format
    ∷ info op_unimp i_format
    ∷ info op_unimp i_format
    ∷ info op_unimp i_format
    ∷ info op_res i_format
    ∷ info op_res i_format
    ∷ info op_res i_format
    ∷ info op_res i_format
    ∷ []

abbrev pub special_table : List OpCode
special_table =
    op_sll ∷ op_res ∷ op_srl ∷ op_sra ∷ op_sllv ∷ op_res ∷ op_srlv ∷ op_srav ∷ op_jr ∷ op_jalr
    ∷ op_res ∷ op_res ∷ op_syscall ∷ op_unimp ∷ op_res ∷ op_res ∷ op_mfhi ∷ op_mthi ∷ op_mflo
    ∷ op_mtlo ∷ op_res ∷ op_res ∷ op_res ∷ op_res ∷ op_mult ∷ op_multu ∷ op_div ∷ op_divu ∷ op_res
    ∷ op_res ∷ op_res ∷ op_res ∷ op_add ∷ op_addu ∷ op_sub ∷ op_subu ∷ op_and ∷ op_or ∷ op_xor
    ∷ op_nor ∷ op_res ∷ op_res ∷ op_slt ∷ op_sltu ∷ op_res ∷ op_res ∷ op_res ∷ op_res ∷ op_res
    ∷ op_res ∷ op_res ∷ op_res ∷ op_res ∷ op_res ∷ op_res ∷ op_res ∷ op_res ∷ op_res ∷ op_res
    ∷ op_res ∷ op_res ∷ op_res ∷ op_res ∷ op_res ∷ []

pub record Instruction : Type 0 where
  pub op_code : OpCode
  pub rs : ℕ
  pub rt : ℕ
  pub rd : ℕ
  pub extra : ℕ

-- The immediate, the shift amount or the target. An immediate is sign-extended to a word.
abbrev pub extra_of : Format → ℕ → ℕ
extra_of i_format value =
    let low = value % 2 ^ 16 in if leb (2 ^ 15) low then low + 4294901760 else low
extra_of r_format value = value / 2 ^ 6 % 2 ^ 5
extra_of j_format value = value % 2 ^ 26

-- The branches that are told apart by the bits of `rt`.
abbrev pub branch_of : ℕ → OpCode
branch_of i =
    if i == 0
    then op_bltz
    else if i == 1
    then op_bgez
    else if i == 16
    then op_bltzal
    else if i == 17
    then op_bgezal
    else op_unimp

abbrev pub op_code_of : OpCode → ℕ → OpCode
op_code_of special value = get_or special_table (value % 2 ^ 6) op_res
op_code_of bcond value = branch_of (value / 2 ^ 16 % 2 ^ 5)
op_code_of other value = other

abbrev pub entry_of : ℕ → OpInfo
entry_of value = get_or op_table (value / 2 ^ 26 % 2 ^ 6) (info op_res i_format)

-- Decode
unfoldable pub decode : ℕ → Instruction
decode value = record {
  op_code = op_code_of (entry_of value).op_code value;
  rs = value / 2 ^ 21 % 2 ^ 5;
  rt = value / 2 ^ 16 % 2 ^ 5;
  rd = value / 2 ^ 11 % 2 ^ 5;
  extra = extra_of (entry_of value).format value;
}
