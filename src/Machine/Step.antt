-- ===== src/Machine/Step.antt =====
-- OneInstruction of machine/mipssim.cc: the execution of one user instruction, with SIM_FIX defined
-- as in the build files. An exception ends the step where the code enters the kernel's handler.
pub mod Delay
pub mod Overflow
pub mod Safe
pub mod Execute
pub mod Run
use nach_os.Base.{
  ℕ, zero, suc, ◌+◌, ◌-◌, ◌*◌, ◌/◌, ◌%◌, ◌^◌, Bool, true, false, not, ◌&&◌, ◌||◌, Result, ok, abort,
  fault, ◌>>=◌, ◌>>◌, bit_and, bit_or, bit_xor, leb, ltb, ◌==◌, if◌then◌else◌, length,
}
use nach_os.Machine.{
  Machine, ExceptionType, syscall_exception, address_error_exception, overflow_exception,
  illegal_instr_exception, reg, set_reg, hi_reg, lo_reg, pc_reg, next_pc_reg, prev_pc_reg, load_reg,
  load_value_reg, bad_vaddr_reg, num_total_regs,
}
use nach_os.Machine.Translate.{Access, raised, value, read_mem, write_mem}
use nach_os.Machine.Multiply.{is_negative, negate, invert, mult}
use nach_os.Machine.Arithmetic.{
  add_word, sub_word, shift_left, shift_right, less_signed, flag, divide_signed, merge_left,
  merge_right, store_left, store_right, extend_byte, extend_half,
}
use nach_os.Machine.Decode.{
  OpCode, Instruction, decode, special, bcond, op_add, op_addi, op_addiu, op_addu, op_and, op_andi,
  op_beq, op_bgez, op_bgezal, op_bgtz, op_blez, op_bltz, op_bltzal, op_bne, op_div, op_divu, op_j,
  op_jal, op_jalr, op_jr, op_lb, op_lbu, op_lh, op_lhu, op_lui, op_lw, op_lwl, op_lwr, op_mfhi,
  op_mflo, op_mthi, op_mtlo, op_mult, op_multu, op_nor, op_or, op_ori, op_rfe, op_sb, op_sh, op_sll,
  op_sllv, op_slt, op_slti, op_sltiu, op_sltu, op_sra, op_srav, op_srl, op_srlv, op_sub, op_subu,
  op_sw, op_swl, op_swr, op_xor, op_xori, op_syscall, op_unimp, op_res,
}

-- DelayedLoad
unfoldable pub delayed_load : Machine → ℕ → ℕ → Result Machine
delayed_load m next_reg next_value =
    let m1 = set_reg m (reg m load_reg) (reg m load_value_reg) in
    let m2 = set_reg m1 load_reg next_reg in
    let m3 = set_reg m2 load_value_reg next_value in
    if ltb (reg m load_reg) num_total_regs then ok (set_reg m3 0 0) else fault

-- What the switch ends with: the next program counter and the delayed load, or an exception.
pub data Step : Type 0 where
  finished : Machine → ℕ → ℕ → ℕ → Step
  stopped : ExceptionType → ℕ → Machine → Step

-- What OneInstruction ends with.
pub data Executed : Type 0 where
  stepped : Machine → Executed
  trapped : ExceptionType → Machine → Executed

-- RaiseException, up to the call of ExceptionHandler.
unfoldable pub raise_exception : ExceptionType → ℕ → Machine → Result Executed
raise_exception which bad_vaddr m =
    delayed_load (set_reg m bad_vaddr_reg bad_vaddr) 0 0 >>= λ m'. ok (trapped which m')

-- After the switch.
unfoldable pub complete : Step → Result Executed
complete (stopped which bad_vaddr m) = raise_exception which bad_vaddr m
complete (finished m pc_after next_load_reg next_load_value) = do
  m1 ← delayed_load m next_load_reg next_load_value
  let m2 = set_reg m1 prev_pc_reg (reg m1 pc_reg)
  let m3 = set_reg m2 pc_reg (reg m2 next_pc_reg)
  ok (stepped (set_reg m3 next_pc_reg pc_after))

-- The value of a memory access, or its exception.
unfoldable pub after_access : ℕ → Machine → (ℕ → Machine → Result Step) → Access → Result Step
after_access addr m k (raised which) = ok (stopped which addr m)
after_access addr m k (value v m') = k v m'

abbrev pub load_then : Machine → ℕ → ℕ → (ℕ → Machine → Result Step) → Result Step
load_then m addr size k = read_mem m addr size >>= after_access addr m k

abbrev pub store_then : Machine → ℕ → ℕ → ℕ → (Machine → Result Step) → Result Step
store_then m addr size v k = write_mem m addr size v >>= after_access addr m λ _ m'. k m'

-- A branch that is taken, and a jump.
abbrev pub branch_if : Bool → Machine → Instruction → ℕ → Result Step
branch_if c m i pc_after =
    let target = add_word (reg m next_pc_reg) (shift_left i.extra 2) in
    ok (finished m (if c then target else pc_after) 0 0)

abbrev pub jump : Machine → Instruction → ℕ → Result Step
jump m i pc_after =
    ok (finished m (bit_or (bit_and pc_after 4026531840) (shift_left i.extra 2)) 0 0)

-- The return address of a call.
abbrev pub link : Machine → ℕ → Machine
link m r = set_reg m r (add_word (reg m next_pc_reg) 4)

-- An assignment to `rd` or to `rt`, with no branch.
abbrev pub assign : Machine → ℕ → ℕ → ℕ → Result Step
assign m r v pc_after = ok (finished (set_reg m r v) pc_after 0 0)

abbrev pub assign_pair : Machine → ℕ × ℕ → ℕ → Result Step
assign_pair m (hi, lo) pc_after =
    ok (finished (set_reg (set_reg m hi_reg hi) lo_reg lo) pc_after 0 0)

abbrev pub assign_or_overflow : Bool → Machine → ℕ → ℕ → ℕ → Result Step
assign_or_overflow overflow m r v pc_after =
    let assigned = assign m r v pc_after in
    if overflow then ok (stopped overflow_exception 0 m) else assigned

-- What LWL and LWR merge the loaded word with: a pending load to `rt`, or `rt`.
abbrev pub pending : Machine → Instruction → ℕ
pending m i = if reg m load_reg == i.rt then reg m load_value_reg else reg m i.rt

abbrev pub load_byte : Bool → Machine → Instruction → ℕ → Result Step
load_byte signed m i pc_after =
    load_then m (add_word (reg m i.rs) i.extra) 1
      λ v m'. ok (finished m' pc_after i.rt (extend_byte signed v))

abbrev pub load_half : Bool → Machine → Instruction → ℕ → Result Step
load_half signed m i pc_after =
    let addr = add_word (reg m i.rs) i.extra in
    let loaded = load_then m addr 2 λ v m'. ok (finished m' pc_after i.rt (extend_half signed v)) in
    if bit_and addr 1 == 0 then loaded else ok (stopped address_error_exception addr m)

abbrev pub load_word : Machine → Instruction → ℕ → Result Step
load_word m i pc_after =
    let addr = add_word (reg m i.rs) i.extra in
    let loaded = load_then m addr 4 λ v m'. ok (finished m' pc_after i.rt v) in
    if bit_and addr 3 == 0 then loaded else ok (stopped address_error_exception addr m)

abbrev pub load_merged : (ℕ → ℕ → ℕ → ℕ) → Machine → Instruction → ℕ → Result Step
load_merged merge m i pc_after =
    let addr = add_word (reg m i.rs) i.extra in
    let byte = bit_and addr 3 in
    load_then m (addr - byte) 4 λ v m'. ok (finished m' pc_after i.rt (merge byte (pending m' i) v))

abbrev pub store : ℕ → Machine → Instruction → ℕ → Result Step
store size m i pc_after =
    store_then m (add_word (reg m i.rs) i.extra) size (reg m i.rt)
      λ m'. ok (finished m' pc_after 0 0)

abbrev pub store_merged : (ℕ → ℕ → ℕ → ℕ) → Machine → Instruction → ℕ → Result Step
store_merged merge m i pc_after =
    let addr = add_word (reg m i.rs) i.extra in
    let byte = bit_and addr 3 in
    load_then m (addr - byte) 4 λ v m'.
      store_then m' (addr - byte) 4 (merge byte v (reg m' i.rt))
        λ m''. ok (finished m'' pc_after 0 0)

-- Quotients and remainders, which are 0 when the divisor is.
abbrev pub divide : Bool → Machine → Instruction → ℕ → Result Step
divide signed m i pc_after =
    let a = reg m i.rs in
    let b = reg m i.rt in
    let results = if signed then divide_signed a b else ok (a / b, a % b) in
    let divided = results >>= λ (q, r). assign_pair m (r, q) pc_after in
    if b == 0 then assign_pair m (0, 0) pc_after else divided

-- The switch of OneInstruction, by the op code.
unfoldable pub execute : OpCode → Instruction → Machine → ℕ → Result Step
execute op_add i m pc_after =
    let a = reg m i.rs in
    let b = reg m i.rt in
    let sum = add_word a b in
    assign_or_overflow (not (is_negative (bit_xor a b)) && is_negative (bit_xor a sum)) m i.rd sum
      pc_after
execute op_addi i m pc_after =
    let a = reg m i.rs in
    let sum = add_word a i.extra in
    assign_or_overflow (not (is_negative (bit_xor a i.extra)) && is_negative (bit_xor i.extra sum))
      m i.rt sum pc_after
execute op_addiu i m pc_after = assign m i.rt (add_word (reg m i.rs) i.extra) pc_after
execute op_addu i m pc_after = assign m i.rd (add_word (reg m i.rs) (reg m i.rt)) pc_after
execute op_and i m pc_after = assign m i.rd (bit_and (reg m i.rs) (reg m i.rt)) pc_after
execute op_andi i m pc_after = assign m i.rt (bit_and (reg m i.rs) (i.extra % 2 ^ 16)) pc_after
execute op_beq i m pc_after = branch_if (reg m i.rs == reg m i.rt) m i pc_after
execute op_bgezal i m pc_after =
    let m' = link m 31 in branch_if (not (is_negative (reg m' i.rs))) m' i pc_after
execute op_bgez i m pc_after = branch_if (not (is_negative (reg m i.rs))) m i pc_after
execute op_bgtz i m pc_after =
    branch_if (not (is_negative (reg m i.rs)) && not (reg m i.rs == 0)) m i pc_after
execute op_blez i m pc_after = branch_if (is_negative (reg m i.rs) || reg m i.rs == 0) m i pc_after
execute op_bltzal i m pc_after =
    let m' = link m 31 in branch_if (is_negative (reg m' i.rs)) m' i pc_after
execute op_bltz i m pc_after = branch_if (is_negative (reg m i.rs)) m i pc_after
execute op_bne i m pc_after = branch_if (not (reg m i.rs == reg m i.rt)) m i pc_after
execute op_div i m pc_after = divide true m i pc_after
execute op_divu i m pc_after = divide false m i pc_after
execute op_jal i m pc_after = jump (link m 31) i pc_after
execute op_j i m pc_after = jump m i pc_after
execute op_jalr i m pc_after = let m' = link m i.rd in ok (finished m' (reg m' i.rs) 0 0)
execute op_jr i m pc_after = ok (finished m (reg m i.rs) 0 0)
execute op_lb i m pc_after = load_byte true m i pc_after
execute op_lbu i m pc_after = load_byte false m i pc_after
execute op_lh i m pc_after = load_half true m i pc_after
execute op_lhu i m pc_after = load_half false m i pc_after
execute op_lui i m pc_after = assign m i.rt (shift_left i.extra 16) pc_after
execute op_lw i m pc_after = load_word m i pc_after
execute op_lwl i m pc_after = load_merged merge_left m i pc_after
execute op_lwr i m pc_after = load_merged merge_right m i pc_after
execute op_mfhi i m pc_after = assign m i.rd (reg m hi_reg) pc_after
execute op_mflo i m pc_after = assign m i.rd (reg m lo_reg) pc_after
execute op_mthi i m pc_after = assign m hi_reg (reg m i.rs) pc_after
execute op_mtlo i m pc_after = assign m lo_reg (reg m i.rs) pc_after
execute op_mult i m pc_after = assign_pair m (mult (reg m i.rs) (reg m i.rt) true) pc_after
execute op_multu i m pc_after = assign_pair m (mult (reg m i.rs) (reg m i.rt) false) pc_after
execute op_nor i m pc_after = assign m i.rd (invert (bit_or (reg m i.rs) (reg m i.rt))) pc_after
execute op_or i m pc_after = assign m i.rd (bit_or (reg m i.rs) (reg m i.rt)) pc_after
execute op_ori i m pc_after = assign m i.rt (bit_or (reg m i.rs) (i.extra % 2 ^ 16)) pc_after
execute op_sb i m pc_after = store 1 m i pc_after
execute op_sh i m pc_after = store 2 m i pc_after
execute op_sll i m pc_after = assign m i.rd (shift_left (reg m i.rt) i.extra) pc_after
execute op_sllv i m pc_after = assign m i.rd (shift_left (reg m i.rt) (reg m i.rs % 2 ^ 5)) pc_after
execute op_slt i m pc_after = assign m i.rd (flag (less_signed (reg m i.rs) (reg m i.rt))) pc_after
execute op_slti i m pc_after = assign m i.rt (flag (less_signed (reg m i.rs) i.extra)) pc_after
execute op_sltiu i m pc_after = assign m i.rt (flag (ltb (reg m i.rs) i.extra)) pc_after
execute op_sltu i m pc_after = assign m i.rd (flag (ltb (reg m i.rs) (reg m i.rt))) pc_after
execute op_sra i m pc_after = assign m i.rd (shift_right (reg m i.rt) i.extra) pc_after
execute op_srav i m pc_after =
    assign m i.rd (shift_right (reg m i.rt) (reg m i.rs % 2 ^ 5)) pc_after
execute op_srl i m pc_after =
    let tmp = reg m i.rt in assign m i.rd (shift_right tmp i.extra) pc_after
execute op_srlv i m pc_after =
    let tmp = reg m i.rt in assign m i.rd (shift_right tmp (reg m i.rs % 2 ^ 5)) pc_after
execute op_sub i m pc_after =
    let a = reg m i.rs in
    let b = reg m i.rt in
    let diff = sub_word a b in
    assign_or_overflow (is_negative (bit_xor a b) && is_negative (bit_xor a diff)) m i.rd diff
      pc_after
execute op_subu i m pc_after = assign m i.rd (sub_word (reg m i.rs) (reg m i.rt)) pc_after
execute op_sw i m pc_after = store 4 m i pc_after
execute op_swl i m pc_after = store_merged store_left m i pc_after
execute op_swr i m pc_after = store_merged store_right m i pc_after
execute op_syscall i m pc_after = ok (stopped syscall_exception 0 m)
execute op_xor i m pc_after = assign m i.rd (bit_xor (reg m i.rs) (reg m i.rt)) pc_after
execute op_xori i m pc_after = assign m i.rt (bit_xor (reg m i.rs) (i.extra % 2 ^ 16)) pc_after
execute op_res i m pc_after = ok (stopped illegal_instr_exception 0 m)
execute op_unimp i m pc_after = ok (stopped illegal_instr_exception 0 m)
execute op_rfe i m pc_after = abort
execute special i m pc_after = abort
execute bcond i m pc_after = abort

-- The fetched word, decoded and executed.
unfoldable pub execute_word : ℕ → Machine → Result Step
execute_word word m = let i = decode word in execute i.op_code i m (add_word (reg m next_pc_reg) 4)

-- OneInstruction
unfoldable pub one_instruction : Machine → Result Executed
one_instruction m = load_then m (reg m pc_reg) 4 execute_word >>= complete
