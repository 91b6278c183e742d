-- ===== src/Machine/Step/Run.antt =====
-- OneInstruction keeps the processor ready for the next one.
use nach_os.Base.{
  ℕ, zero, suc, ◌/◌, ◌%◌, ◌^◌, ◌<◌, ◌≡◌, refl, Bool, true, false, Result, ok, fault, arith, ◌>>=◌,
  ◌&&◌, List, [], ◌∷◌, get_or, ◌∙◌, sym, ap,
}
use nach_os.Machine.{Machine, reg, set_reg, pc_reg, load_reg, bad_vaddr_reg}
use nach_os.Machine.Decode.{
  OpCode, decode, special, bcond, entry_of, op_code_of, op_table, special_table, OpInfo, info,
  i_format, op_rfe, op_res,
}
use nach_os.Machine.Step.{
  Step, execute_word, one_instruction, complete, raise_exception, Executed, stepped, trapped,
}
use nach_os.Machine.Step.Delay.{
  IsProcessor, complete-Completed, SameMemory, delayed_load_lem, reg-set_reg,
}
use nach_os.Machine.Translate.{value, read_mem}
use nach_os.Machine.Translate.Bounds.{HasTable, paged, cached}
use nach_os.Machine.{ExceptionType}
use nach_os.Base.{length-set}
use nach_os.Machine.Step.Safe.{IsReady, Safe, finishes, stops, host_stops, Safe-map, load_then-Safe}
use nach_os.Machine.Step.Execute.{is_decoded, Stuck, execute-Safe}

-- The decoder gives op codes that the switch has, and general registers.
all_decoded : List OpCode → Bool
all_decoded [] = true
all_decoded (c ∷ cs) = is_decoded c && all_decoded cs

all_decoded-get_or :
    (cs : List OpCode) (k : ℕ) → all_decoded cs ≡ true → is_decoded (get_or cs k op_res) ≡ true
unfolding all_decoded
all_decoded-get_or [] k h = refl
all_decoded-get_or (c ∷ cs) zero h = ground (arith, h)
all_decoded-get_or (c ∷ cs) (suc k) h = all_decoded-get_or cs k (ground (arith, h))

-- An op code of the first table, decoded further where it has to be.
is_entry : OpCode → Bool
is_entry op_rfe = false
is_entry other = true

all_entries : List OpInfo → Bool
all_entries [] = true
all_entries (e ∷ es) = is_entry e.op_code && all_entries es

all_entries-get_or :
    (es : List OpInfo) (k : ℕ)
    → all_entries es ≡ true
    → is_entry (get_or es k (info op_res i_format)).op_code ≡ true
unfolding all_entries is_entry
all_entries-get_or [] k h = refl
all_entries-get_or (e ∷ es) zero h = ground (arith, h)
all_entries-get_or (e ∷ es) (suc k) h = all_entries-get_or es k (ground (arith, h))

decoded_further :
    (c : OpCode) (word : ℕ) → is_entry c ≡ true → is_decoded (op_code_of c word) ≡ true
unfolding is_entry all_decoded
decoded_further special word h = all_decoded-get_or special_table (word % 2 ^ 6) refl
decoded_further bcond word h = ground arith
decoded_further op_rfe word h = cc
decoded_further other word h = refl

decode_lem :
    (word : ℕ)
    → ((decode word).rt < 32) × ((decode word).rd < 32) × (is_decoded (decode word).op_code ≡ true)
unfolding decode all_entries is_entry
decode_lem word = (
  omega arith,
  omega arith,
  decoded_further (entry_of word).op_code word
      (all_entries-get_or op_table (word / 2 ^ 26 % 2 ^ 6) refl),
)

-- The table is kept by what keeps all but the registers.
SameMemory-HasTable : {m m' : Machine} → SameMemory m m' → HasTable m → HasTable m'
SameMemory-HasTable s (paged x y z) =
    paged (s.tlb ∙ x) (s.page_table ∙ y) (z ∙ sym s.page_table_size)
SameMemory-HasTable s (cached x y z) = cached (s.tlb ∙ x) (s.page_table ∙ y) z

-- How an instruction may end: with a processor that is ready and whose register 0 is zero, whether
-- it ran to its end or trapped; or the host stops for the reason `q`.
pub data Ends (q : Type 0) : Result Executed → Type 0 where
  steps : {m : Machine} → IsReady m → reg m 0 ≡ 0 → Ends q (ok (stepped m))
  traps : {e : ExceptionType} {m : Machine} → IsReady m → reg m 0 ≡ 0 → Ends q (ok (trapped e m))
  halts : q → Ends q fault

raise_exception-Ends :
    {q : Type 0} (e : ExceptionType) (addr : ℕ) (m : Machine)
    → IsReady m
    → Ends q (raise_exception e addr m)
unfolding raise_exception
raise_exception-Ends e addr m ready =
    let m0 = set_reg m bad_vaddr_reg addr in
    let l0 = length-set m.registers bad_vaddr_reg addr ∙ ready.processor.count in
    let same : reg m0 load_reg ≡ reg m load_reg =
      reg-set_reg m bad_vaddr_reg addr load_reg (omega (arith, ready.processor.count)) in
    let v : IsProcessor m0 = record {
      count = l0;
      pending = omega (arith, same, ready.processor.pending);
    } in
    let (m1, runs, l1, regs, rest) = delayed_load_lem m0 v 0 0 in
    let table : HasTable m1 =
      SameMemory-HasTable
        (record {
          tlb = rest.tlb;
          page_table = rest.page_table;
          page_table_size = rest.page_table_size;
          main_memory = rest.main_memory;
        })
        ready.table in
    let small : reg m1 load_reg < 32 = omega (arith, regs load_reg) in
    rw runs (
      traps (record { processor = record { count = l1; pending = small }; table = table }) (regs 0))

complete-Ends : {q : Type 0} (x : Result Step) → Safe q x → Ends q (x >>= complete)
unfolding complete
complete-Ends _ (finishes {m} {pc_after} {r} {v} ready small) =
    let (m', runs, c) = complete-Completed m pc_after r v ready.processor in
    rw runs (
      steps
        (record { processor = c.processor small; table = SameMemory-HasTable c.rest ready.table })
        c.zero)
complete-Ends _ (stops {e} {addr} {m} ready) = raise_exception-Ends e addr m ready
complete-Ends _ (host_stops q) = halts q

-- The word that is fetched is a DIV of -2 ^ 31 by -1.
abbrev pub StuckAt : Machine → Type 0
StuckAt m =
    (word : ℕ) × (m' : Machine) × (read_mem m (reg m pc_reg) 4 ≡ ok (value word m'))
    × Stuck (decode word).op_code (decode word) m

-- One instruction, of a processor that is ready: it always ends, at its end or at an exception, with
-- the processor ready for the next one and register 0 zero. Only where the word at the program
-- counter is a DIV and its registers hold -2 ^ 31 and -1 does the host stop instead.
pub one_instruction-Ends : {m : Machine} → IsReady m → Ends (StuckAt m) (one_instruction m)
unfolding one_instruction execute_word
one_instruction-Ends {m} ready = complete-Ends _ (
    load_then-Safe (reg m pc_reg) 4 execute_word ready refl λ word m' fetched r same.
      let (t, d, known) = decode_lem word in
      Safe-map
        (λ (c, x, y). (
          word,
          m',
          fetched,
          (
            c,
            ap (λ (xs : List ℕ). get_or xs (decode word).rs 0) (sym same) ∙ x,
            ap (λ (xs : List ℕ). get_or xs (decode word).rt 0) (sym same) ∙ y,
          ),
        ))
        (execute-Safe (decode word).op_code (decode word) _ r t d known))
