-- ===== src/Machine/Step/Delay.antt =====
-- The delayed load and the program counters: what the end of an instruction does to the registers.
use nach_os.Base.{
  ℕ, ◌<◌, ◌≡◌, refl, ◌∙◌, ok, arith, length, length-set, get_or-set_self, get_or-set_ne, ◌==◌,
  if◌then◌else◌, lt→ltb, ==_refl,
}
use native.Mathlib.Decide.{ℕ_discrete}
use nach_os.Machine.{
  Machine, reg, set_reg, num_total_regs, pc_reg, next_pc_reg, prev_pc_reg, load_reg, load_value_reg,
  bad_vaddr_reg,
}
use nach_os.Machine.Step.{delayed_load, complete, finished, stepped}

-- The registers of the right number, with a pending load that names a general register.
pub record IsProcessor (m : Machine) : Type 0 where
  pub count : length m.registers ≡ num_total_regs
  pub pending : reg m load_reg < 32

pub reg-set_reg :
    (m : Machine) (i v j : ℕ)
    → i < length m.registers
    → reg (set_reg m i v) j ≡ (if i == j then v else reg m j)
reg-set_reg m i v j h = elim (ℕ_discrete i j) [
  | yes e ↦ rw (← e, get_or-set_self m.registers i v 0 h, ==_refl i) refl
  | no ne ↦ ground (arith, get_or-set_ne m.registers i j v 0 ne)
]

-- All but the registers is the same.
pub record SameMemory (m m' : Machine) : Type 0 where
  pub tlb : m'.tlb ≡ m.tlb
  pub page_table : m'.page_table ≡ m.page_table
  pub page_table_size : m'.page_table_size ≡ m.page_table_size
  pub main_memory : m'.main_memory ≡ m.main_memory

module _ (m : Machine) (v : IsProcessor m) where
  -- A pending load is done, a new one is recorded, and register 0 is zero.
  pub delayed_load_lem :
      (r value : ℕ)
      → (m' : Machine) × (delayed_load m r value ≡ ok m')
        × (length m'.registers ≡ num_total_regs)
        × ((j : ℕ)
            → reg m' j ≡ (
                if 0 == j
                then 0
                else if load_value_reg == j
                then value
                else if load_reg == j
                then r
                else if reg m load_reg == j
                then reg m load_value_reg
                else reg m j))
        × SameMemory m m'
  unfolding delayed_load
  delayed_load_lem r value =
      let p = reg m load_reg in
      let w = reg m load_value_reg in
      let m1 = set_reg m p w in
      let m2 = set_reg m1 load_reg r in
      let m3 = set_reg m2 load_value_reg value in
      let l1 = length-set m.registers p w ∙ v.count in
      let l2 = length-set m1.registers load_reg r ∙ l1 in
      let l3 = length-set m2.registers load_value_reg value ∙ l2 in
      (
        set_reg m3 0 0,
        rw (lt→ltb p num_total_regs (omega (arith, v.pending))) refl,
        length-set m3.registers 0 0 ∙ l3,
        λ j.
            reg-set_reg m3 0 0 j (omega (arith, l3))
            ∙ ground (
              arith,
              reg-set_reg m2 load_value_reg value j (omega (arith, l2)),
              reg-set_reg m1 load_reg r j (omega (arith, l1)),
              reg-set_reg m p w j (omega (arith, v.pending, v.count)),
            ),
        record { tlb = refl; page_table = refl; page_table_size = refl; main_memory = refl },
      )

-- The registers after an instruction that ran to its end.
pub record Completed (m : Machine) (pc_after r value : ℕ) (m' : Machine) : Type 0 where
  pub processor : r < 32 → IsProcessor m'
  pub zero : reg m' 0 ≡ 0
  pub rest : SameMemory m m'
  pub pc : reg m' pc_reg ≡ reg m next_pc_reg
  pub next_pc : reg m' next_pc_reg ≡ pc_after
  pub prev_pc : reg m' prev_pc_reg ≡ reg m pc_reg
  pub load : reg m' load_reg ≡ r
  pub load_value : reg m' load_value_reg ≡ value
  pub bad_vaddr : reg m' bad_vaddr_reg ≡ reg m bad_vaddr_reg
  pub others :
      (k : ℕ)
      → 0 < k
      → k < pc_reg
      → reg m' k ≡ (if reg m load_reg == k then reg m load_value_reg else reg m k)

-- The end of an instruction: the load that was pending is done, the load of this instruction is
-- pending, register 0 is zero, the program counter moves to the next one, and the next one is the one
-- that the instruction chose. Every other register stays, and so do memory and tables.
pub complete-Completed :
    (m : Machine) (pc_after r value : ℕ)
    → IsProcessor m
    → (m' : Machine) × (complete (finished m pc_after r value) ≡ ok (stepped m'))
      × Completed m pc_after r value m'
unfolding complete
complete-Completed m pc_after r value v =
    let (m1, e, l1, regs, rest) = delayed_load_lem m v r value in
    let m2 = set_reg m1 prev_pc_reg (reg m1 pc_reg) in
    let m3 = set_reg m2 pc_reg (reg m2 next_pc_reg) in
    let m4 = set_reg m3 next_pc_reg pc_after in
    let l2 = length-set m1.registers prev_pc_reg (reg m1 pc_reg) ∙ l1 in
    let l3 = length-set m2.registers pc_reg (reg m2 next_pc_reg) ∙ l2 in
    let l4 = length-set m3.registers next_pc_reg pc_after ∙ l3 in
    let at4 = λ (j : ℕ). reg-set_reg m3 next_pc_reg pc_after j (omega (arith, l3)) in
    let at3 = λ (j : ℕ). reg-set_reg m2 pc_reg (reg m2 next_pc_reg) j (omega (arith, l2)) in
    let at2 = λ (j : ℕ). reg-set_reg m1 prev_pc_reg (reg m1 pc_reg) j (omega (arith, l1)) in
    let load = at4 load_reg ∙ at3 load_reg ∙ at2 load_reg ∙ regs load_reg in
    (
      m4,
      rw e refl,
      record {
        processor = λ small. record { count = l4; pending = omega (arith, load) };
        rest = record {
          tlb = rest.tlb;
          page_table = rest.page_table;
          page_table_size = rest.page_table_size;
          main_memory = rest.main_memory;
        };
        zero = at4 0 ∙ at3 0 ∙ at2 0 ∙ regs 0;
        pc = ground (arith, at4 pc_reg, at3 pc_reg, at2 next_pc_reg, regs next_pc_reg, v.pending);
        next_pc = at4 next_pc_reg;
        prev_pc =
            ground
              (arith, at4 prev_pc_reg, at3 prev_pc_reg, at2 prev_pc_reg, regs pc_reg, v.pending);
        load = load;
        load_value =
            at4 load_value_reg ∙ at3 load_value_reg ∙ at2 load_value_reg ∙ regs load_value_reg;
        bad_vaddr = ground (
          arith,
          at4 bad_vaddr_reg,
          at3 bad_vaddr_reg,
          at2 bad_vaddr_reg,
          regs bad_vaddr_reg,
          v.pending,
        );
        others = λ k p q. ground (arith, at4 k, at3 k, at2 k, regs k);
      },
    )
