-- ===== src/Machine.antt =====
-- machine/machine.h and machine.cc, machine/translate.h: the simulated processor's state. A register,
-- an address and a page number are 32-bit words, numbers below 2 ^ 32; where the code reads a word as
-- a signed integer the model says so. Main memory is a function from addresses to bytes, and every
-- address that the code uses is checked against `memory_size` first.
pub mod Translate
pub mod Multiply
pub mod Arithmetic
pub mod Decode
pub mod Step
mod Tests
use nach_os.Base.{
  ℕ, ◌*◌, ◌%◌, ◌^◌, Bool, true, false, List, Option, none, some, Result, ok, fault, ◌>>=◌, ◌>>◌,
  assert, ltb, ◌==◌, if◌then◌else◌, get_or, set, replicate, length,
}

-- PageSize, NumPhysPages, MemorySize, TLBSize
abbrev pub page_size : ℕ
page_size = 128

abbrev pub num_phys_pages : ℕ
num_phys_pages = 128

abbrev pub memory_size : ℕ
memory_size = num_phys_pages * page_size

abbrev pub tlb_size : ℕ
tlb_size = 4

pub data ExceptionType : Type 0 where
  no_exception syscall_exception page_fault_exception read_only_exception : ExceptionType
  bus_error_exception address_error_exception overflow_exception : ExceptionType
  illegal_instr_exception : ExceptionType

pub record TranslationEntry : Type 0 where
  pub virtual_page : ℕ
  pub physical_page : ℕ
  pub valid : Bool
  pub read_only : Bool
  pub use_bit : Bool
  pub dirty : Bool

-- A null pointer is `none`.
pub record Machine : Type 0 where
  pub registers : List ℕ
  pub main_memory : ℕ → ℕ
  pub tlb : Option (List TranslationEntry)
  pub page_table : Option (List TranslationEntry)
  pub page_table_size : ℕ

-- NumTotalRegs, and the special registers
abbrev pub num_total_regs : ℕ
num_total_regs = 40

abbrev pub hi_reg : ℕ
hi_reg = 32

abbrev pub lo_reg : ℕ
lo_reg = 33

abbrev pub pc_reg : ℕ
pc_reg = 34

abbrev pub next_pc_reg : ℕ
next_pc_reg = 35

abbrev pub prev_pc_reg : ℕ
prev_pc_reg = 36

abbrev pub load_reg : ℕ
load_reg = 37

abbrev pub load_value_reg : ℕ
load_value_reg = 38

abbrev pub bad_vaddr_reg : ℕ
bad_vaddr_reg = 39

-- `registers[num]` in the simulator, and an assignment to it, which faults outside the array.
abbrev pub reg : Machine → ℕ → ℕ
reg m num = get_or m.registers num 0

abbrev pub set_reg : Machine → ℕ → ℕ → Machine
set_reg m num value = record m { registers = set m.registers num value }

unfoldable pub read_register : Machine → ℕ → Result ℕ
read_register m num = do assert (ltb num num_total_regs); ok (reg m num)

unfoldable pub write_register : Machine → ℕ → ℕ → Result Machine
write_register m num value = do assert (ltb num num_total_regs); ok (set_reg m num value)
