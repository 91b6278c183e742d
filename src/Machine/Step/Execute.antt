-- ===== src/Machine/Step/Execute.antt =====
-- The switch of OneInstruction, op code by op code: it keeps the processor ready.
use nach_os.Base.{
  ℕ, ◌-◌, ◌^◌, ◌<◌, ◌≡◌, refl, Bool, true, false, arith, ◌==◌, ◌&&◌, Bool-cases, inl, inr,
}
use nach_os.Machine.{Machine, reg, hi_reg, lo_reg}
use nach_os.Machine.Decode.{
  OpCode, Instruction, special, bcond, op_add, op_addi, op_addiu, op_addu, op_and, op_andi, op_beq,
  op_bgez, op_bgezal, op_bgtz, op_blez, op_bltz, op_bltzal, op_bne, op_div, op_divu, op_j, op_jal,
  op_jalr, op_jr, op_lb, op_lbu, op_lh, op_lhu, op_lui, op_lw, op_lwl, op_lwr, op_mfhi, op_mflo,
  op_mthi, op_mtlo, op_mult, op_multu, op_nor, op_or, op_ori, op_rfe, op_sb, op_sh, op_sll, op_sllv,
  op_slt, op_slti, op_sltiu, op_sltu, op_sra, op_srav, op_srl, op_srlv, op_sub, op_subu, op_sw,
  op_swl, op_swr, op_xor, op_xori, op_syscall, op_unimp, op_res,
}
use nach_os.Machine.Step.{assign, assign_pair, branch_if, link, divide, execute}
use nach_os.Machine.Arithmetic.{divide_signed}
use nach_os.Machine.Step.Safe.{
  IsReady, Safe, finishes, stops, host_stops, Safe-if, set_reg-IsReady, load_then-Safe,
  store_then-Safe,
}

assign-Safe :
    {q : Type 0} {m : Machine} (ready : IsReady m) (k v pc_after : ℕ)
    → k < 34
    → Safe q (assign m k v pc_after)
assign-Safe ready k v pc_after h = finishes (set_reg-IsReady k v ready (omega arith)) (omega arith)

assign_pair-Safe :
    {q : Type 0} {m : Machine} (ready : IsReady m) (p : ℕ × ℕ) (pc_after : ℕ)
    → Safe q (assign_pair m p pc_after)
assign_pair-Safe ready (hi, lo) pc_after =
    finishes
      (set_reg-IsReady lo_reg lo (set_reg-IsReady hi_reg hi ready (omega arith)) (omega arith))
      (omega arith)

branch_if-Safe :
    {q : Type 0} {m : Machine} (c : Bool) (i : Instruction) (pc_after : ℕ)
    → IsReady m
    → Safe q (branch_if c m i pc_after)
branch_if-Safe c i pc_after ready = finishes ready (omega arith)

linked : {m : Machine} → IsReady m → (r : ℕ) → r < 34 → IsReady (link m r)
linked ready r h = set_reg-IsReady r _ ready (omega arith)

divide_unsigned-Safe :
    {q : Type 0} {m : Machine} (i : Instruction) (pc_after : ℕ)
    → IsReady m
    → Safe q (divide false m i pc_after)
divide_unsigned-Safe {m = m} i pc_after ready =
    Safe-if (reg m i.rt == 0) (assign_pair-Safe ready _ pc_after)
      (assign_pair-Safe ready _ pc_after)

divide-Safe :
    {q : Type 0} {m : Machine} (i : Instruction) (pc_after : ℕ)
    → IsReady m
    → (reg m i.rs ≡ 2 ^ 31 → reg m i.rt ≡ 2 ^ 32 - 1 → q)
    → Safe q (divide true m i pc_after)
unfolding divide_signed
divide-Safe {m = m} i pc_after ready stuck =
    Safe-if (reg m i.rt == 0) (assign_pair-Safe ready _ pc_after)
      (elim (Bool-cases (reg m i.rs == 2 ^ 31 && reg m i.rt == 2 ^ 32 - 1)) [
        | inl none ↦ rw none (host_stops (stuck (ground (arith, none)) (ground (arith, none))))
        | inr some ↦ rw some (assign_pair-Safe ready _ pc_after)
      ])

-- The op codes that the decoder gives.
abbrev pub is_decoded : OpCode → Bool
is_decoded op_rfe = false
is_decoded special = false
is_decoded bcond = false
is_decoded other = true

-- DIV of -2 ^ 31 by -1.
abbrev pub Stuck : OpCode → Instruction → Machine → Type 0
Stuck c i m = (c ≡ op_div) × (reg m i.rs ≡ 2 ^ 31) × (reg m i.rt ≡ 2 ^ 32 - 1)

pub execute-Safe :
    (c : OpCode) {m : Machine} (i : Instruction) (pc_after : ℕ)
    → IsReady m
    → i.rt < 32
    → i.rd < 32
    → is_decoded c ≡ true
    → Safe (Stuck c i m) (execute c i m pc_after)
unfolding execute
execute-Safe op_add i pc_after ready t d h =
    Safe-if _ (stops ready) (assign-Safe ready i.rd _ pc_after (omega arith))
execute-Safe op_addi i pc_after ready t d h =
    Safe-if _ (stops ready) (assign-Safe ready i.rt _ pc_after (omega arith))
execute-Safe op_addiu i pc_after ready t d h = assign-Safe ready i.rt _ pc_after (omega arith)
execute-Safe op_addu i pc_after ready t d h = assign-Safe ready i.rd _ pc_after (omega arith)
execute-Safe op_and i pc_after ready t d h = assign-Safe ready i.rd _ pc_after (omega arith)
execute-Safe op_andi i pc_after ready t d h = assign-Safe ready i.rt _ pc_after (omega arith)
execute-Safe op_beq i pc_after ready t d h = branch_if-Safe _ i pc_after ready
execute-Safe op_bgez i pc_after ready t d h = branch_if-Safe _ i pc_after ready
execute-Safe op_bgezal i pc_after ready t d h =
    branch_if-Safe _ i pc_after (linked ready 31 (omega arith))
execute-Safe op_bgtz i pc_after ready t d h = branch_if-Safe _ i pc_after ready
execute-Safe op_blez i pc_after ready t d h = branch_if-Safe _ i pc_after ready
execute-Safe op_bltz i pc_after ready t d h = branch_if-Safe _ i pc_after ready
execute-Safe op_bltzal i pc_after ready t d h =
    branch_if-Safe _ i pc_after (linked ready 31 (omega arith))
execute-Safe op_bne i pc_after ready t d h = branch_if-Safe _ i pc_after ready
execute-Safe op_div i pc_after ready t d h = divide-Safe i pc_after ready λ x y. (refl, x, y)
execute-Safe op_divu i pc_after ready t d h = divide_unsigned-Safe i pc_after ready
execute-Safe op_j i pc_after ready t d h = finishes ready (omega arith)
execute-Safe op_jal i pc_after ready t d h = finishes (linked ready 31 (omega arith)) (omega arith)
execute-Safe op_jalr i pc_after ready t d h =
    finishes (linked ready i.rd (omega arith)) (omega arith)
execute-Safe op_jr i pc_after ready t d h = finishes ready (omega arith)
execute-Safe op_lb i pc_after ready t d h =
    load_then-Safe _ 1 _ ready refl λ v m' _ r _. finishes r t
execute-Safe op_lbu i pc_after ready t d h =
    load_then-Safe _ 1 _ ready refl λ v m' _ r _. finishes r t
execute-Safe op_lh i pc_after ready t d h =
    Safe-if _ (load_then-Safe _ 2 _ ready refl λ v m' _ r _. finishes r t) (stops ready)
execute-Safe op_lhu i pc_after ready t d h =
    Safe-if _ (load_then-Safe _ 2 _ ready refl λ v m' _ r _. finishes r t) (stops ready)
execute-Safe op_lui i pc_after ready t d h = assign-Safe ready i.rt _ pc_after (omega arith)
execute-Safe op_lw i pc_after ready t d h =
    Safe-if _ (load_then-Safe _ 4 _ ready refl λ v m' _ r _. finishes r t) (stops ready)
execute-Safe op_lwl i pc_after ready t d h =
    load_then-Safe _ 4 _ ready refl λ v m' _ r _. finishes r t
execute-Safe op_lwr i pc_after ready t d h =
    load_then-Safe _ 4 _ ready refl λ v m' _ r _. finishes r t
execute-Safe op_mfhi i pc_after ready t d h = assign-Safe ready i.rd _ pc_after (omega arith)
execute-Safe op_mflo i pc_after ready t d h = assign-Safe ready i.rd _ pc_after (omega arith)
execute-Safe op_mthi i pc_after ready t d h = assign-Safe ready hi_reg _ pc_after (omega arith)
execute-Safe op_mtlo i pc_after ready t d h = assign-Safe ready lo_reg _ pc_after (omega arith)
execute-Safe op_mult i pc_after ready t d h = assign_pair-Safe ready _ pc_after
execute-Safe op_multu i pc_after ready t d h = assign_pair-Safe ready _ pc_after
execute-Safe op_nor i pc_after ready t d h = assign-Safe ready i.rd _ pc_after (omega arith)
execute-Safe op_or i pc_after ready t d h = assign-Safe ready i.rd _ pc_after (omega arith)
execute-Safe op_ori i pc_after ready t d h = assign-Safe ready i.rt _ pc_after (omega arith)
execute-Safe op_rfe i pc_after ready t d h = cc
execute-Safe op_sb i pc_after ready t d h =
    store_then-Safe _ 1 _ _ ready refl λ m' r. finishes r (omega arith)
execute-Safe op_sh i pc_after ready t d h =
    store_then-Safe _ 2 _ _ ready refl λ m' r. finishes r (omega arith)
execute-Safe op_sll i pc_after ready t d h = assign-Safe ready i.rd _ pc_after (omega arith)
execute-Safe op_sllv i pc_after ready t d h = assign-Safe ready i.rd _ pc_after (omega arith)
execute-Safe op_slt i pc_after ready t d h = assign-Safe ready i.rd _ pc_after (omega arith)
execute-Safe op_slti i pc_after ready t d h = assign-Safe ready i.rt _ pc_after (omega arith)
execute-Safe op_sltiu i pc_after ready t d h = assign-Safe ready i.rt _ pc_after (omega arith)
execute-Safe op_sltu i pc_after ready t d h = assign-Safe ready i.rd _ pc_after (omega arith)
execute-Safe op_sra i pc_after ready t d h = assign-Safe ready i.rd _ pc_after (omega arith)
execute-Safe op_srav i pc_after ready t d h = assign-Safe ready i.rd _ pc_after (omega arith)
execute-Safe op_srl i pc_after ready t d h = assign-Safe ready i.rd _ pc_after (omega arith)
execute-Safe op_srlv i pc_after ready t d h = assign-Safe ready i.rd _ pc_after (omega arith)
execute-Safe op_sub i pc_after ready t d h =
    Safe-if _ (stops ready) (assign-Safe ready i.rd _ pc_after (omega arith))
execute-Safe op_subu i pc_after ready t d h = assign-Safe ready i.rd _ pc_after (omega arith)
execute-Safe op_sw i pc_after ready t d h =
    store_then-Safe _ 4 _ _ ready refl λ m' r. finishes r (omega arith)
execute-Safe op_swl i pc_after ready t d h =
    load_then-Safe _ 4 _ ready refl
      λ v m' _ r _. store_then-Safe _ 4 _ _ r refl λ m'' r'. finishes r' (omega arith)
execute-Safe op_swr i pc_after ready t d h =
    load_then-Safe _ 4 _ ready refl
      λ v m' _ r _. store_then-Safe _ 4 _ _ r refl λ m'' r'. finishes r' (omega arith)
execute-Safe op_xor i pc_after ready t d h = assign-Safe ready i.rd _ pc_after (omega arith)
execute-Safe op_xori i pc_after ready t d h = assign-Safe ready i.rt _ pc_after (omega arith)
execute-Safe op_syscall i pc_after ready t d h = stops ready
execute-Safe op_unimp i pc_after ready t d h = stops ready
execute-Safe op_res i pc_after ready t d h = stops ready
execute-Safe special i pc_after ready t d h = cc
execute-Safe bcond i pc_after ready t d h = cc
