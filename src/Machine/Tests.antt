-- ===== src/Machine/Tests.antt =====
-- Runs of the simulated processor, and its theorems at concrete states.
use nach_os.Base.{
  Bool, ◌%◌, ◌≡◌, refl, true, false, [], ◌∷◌, none, some, ok, arith, replicate, ◌++◌, get_or,
}
use nach_os.Machine.Step.Overflow.{
  Sum, NoSum, Difference, NoDifference, execute-op_add, execute-op_sub,
}
use nach_os.Machine.Step.Run.{Ends, StuckAt, one_instruction-Ends}
use nach_os.Machine.Step.{one_instruction}
use nach_os.Machine.Arithmetic.{divide_signed}
use nach_os.Machine.Decode.{op_div, op_sub, op_add, Instruction}
use nach_os.Base.{◌⊎◌, fault}
use nach_os.Machine.Step.{stopped}
use nach_os.Machine.{overflow_exception, set_reg, TranslationEntry, Machine}
use nach_os.Machine.Translate.ReadBack.{read_mem-write_mem, kept}
use nach_os.Machine.Translate.{
  write_translated, write_mem, read_mem, value, store_bytes, lookup, lookup_page, use_entry,
  replace_entry, Translation, translate,
}
use nach_os.Machine.Translate.Bounds.{HasTable, paged}
use nach_os.Machine.Translate.Mapping.{Translates, translate_lem}
use nach_os.Machine.Multiply.{mult, multiply_from}
use nach_os.Machine.Multiply.Laws.{mult_lem, double, product}
use nach_os.Machine.Decode.{decode, op_res, op_srl, i_format, special_table, op_table, info, bcond}
use nach_os.Machine.Decode.Laws.{decode-r_word, decode-i_word, r_word, i_word, is_final, Branches}
use nach_os.Machine.Step.{complete, execute, finished, stepped}
use nach_os.Machine.Step.Delay.{IsProcessor, Completed, complete-Completed}

-- One page, in frame 3, and a load of 9 to register 5 pending.
abbrev one_page : Machine
one_page = record {
  registers = replicate 34 7 ++ 100 ∷ 104 ∷ 96 ∷ 5 ∷ 9 ∷ 0 ∷ [];
  main_memory = λ a. a % 256;
  tlb = none;
  page_table = some (
      record {
        virtual_page = 0;
        physical_page = 3;
        valid = true;
        read_only = true;
        use_bit = false;
        dirty = false;
      }
      ∷ []);
  page_table_size = 1;
}

one_page-HasTable : HasTable one_page
one_page-HasTable = paged refl refl refl

one_page-IsProcessor : IsProcessor one_page
one_page-IsProcessor = record { count = refl; pending = omega arith }

translate_lem_example :
    (r : Translation) × (translate one_page 8 4 false ≡ ok r) × Translates one_page 8 4 false r
translate_lem_example = translate_lem 8 4 false one_page-HasTable refl

-- The product of -3 and 5.
mult_lem_example :
    double (mult 4294967293 5 true).0 (mult 4294967293 5 true).1 ≡ product true 4294967293 5
mult_lem_example = mult_lem 4294967293 5 true (omega arith) (omega arith)

mult_runs : mult 4294967293 5 true ≡ (4294967295, 4294967281)
unfolding mult multiply_from
mult_runs = refl

decode-r_word_example :
    decode (r_word 1 2 3 4 32)
    ≡ (record { op_code = get_or special_table 32 op_res; rs = 1; rt = 2; rd = 3; extra = 4 })
decode-r_word_example =
    decode-r_word 1 2 3 4 32 (omega arith) (omega arith) (omega arith) (omega arith) (omega arith)

decode-i_word_example :
    let i = decode (i_word 1 4 16 65532) in
    let c = (get_or op_table 1 (info op_res i_format)).op_code in
    (i.rs ≡ 4)
    × (i.rt ≡ 16)
    × (i.extra ≡ 4294967292)
    × (is_final c ≡ true → i.op_code ≡ c)
    × (c ≡ bcond → Branches 16 i.op_code)
decode-i_word_example =
    decode-i_word 1 4 16 65532 (omega arith) (omega arith) (omega arith) (omega arith) refl

complete-Completed_example :
    (m : Machine) × (complete (finished one_page 108 6 11) ≡ ok (stepped m))
    × Completed one_page 108 6 11 m
complete-Completed_example = complete-Completed one_page 108 6 11 one_page-IsProcessor

-- SRL of a word whose highest bit is set fills with ones, as SRA does: 0x80000000 >> 4.
srl_keeps_sign :
    execute op_srl
      (record { op_code = op_srl; rs = 0; rt = 1; rd = 2; extra = 4 })
      (record one_page { registers = 0 ∷ 2147483648 ∷ replicate 38 0 })
      108
    ≡ ok (
        finished
          (record one_page { registers = 0 ∷ 2147483648 ∷ 4160749568 ∷ replicate 37 0 })
          108
          0
          0)
unfolding execute
srl_keeps_sign = refl

-- The page made writable, and a word written to it.
abbrev frame_3 : Bool → TranslationEntry
frame_3 touched = record {
  virtual_page = 0;
  physical_page = 3;
  valid = true;
  read_only = false;
  use_bit = touched;
  dirty = touched;
}

abbrev writable : Machine
writable = record one_page { page_table = some (frame_3 false ∷ []) }

abbrev written : Machine
written = record one_page {
  page_table = some (frame_3 true ∷ []);
  main_memory = store_bytes 4 one_page.main_memory 392 4000000000;
}

write_runs : write_mem writable 8 4 4000000000 ≡ ok (value 4000000000 written)
unfolding write_mem write_translated translate lookup lookup_page use_entry replace_entry
write_runs = refl

read_mem-write_mem_example :
    (m : Machine) × (read_mem written 8 4 ≡ ok (value (kept 4 4000000000) m))
read_mem-write_mem_example =
    read_mem-write_mem 8 4 4000000000 (paged refl refl refl) refl write_runs

-- r3 = r1 + r2 and r3 = r1 - r2, of 2 ^ 31 - 1 and 1.
abbrev add_r3 : Instruction
add_r3 = record { op_code = op_add; rs = 1; rt = 2; rd = 3; extra = 0 }

abbrev two_words : Machine
two_words = record one_page { registers = 0 ∷ 2147483647 ∷ 1 ∷ replicate 37 0 }

execute-op_add_example :
    ((execute op_add add_r3 two_words 108 ≡ ok (finished (set_reg two_words 3 2147483648) 108 0 0))
      × Sum 2147483647 1 2147483648)
    ⊎ ((execute op_add add_r3 two_words 108 ≡ ok (stopped overflow_exception 0 two_words))
        × NoSum 2147483647 1)
execute-op_add_example = execute-op_add add_r3 two_words 108 (omega arith) (omega arith)

execute-op_sub_example :
    ((execute op_sub add_r3 two_words 108 ≡ ok (finished (set_reg two_words 3 2147483646) 108 0 0))
      × Difference 2147483647 1 2147483646)
    ⊎ ((execute op_sub add_r3 two_words 108 ≡ ok (stopped overflow_exception 0 two_words))
        × NoDifference 2147483647 1)
execute-op_sub_example = execute-op_sub add_r3 two_words 108 (omega arith) (omega arith)

one_instruction-Ends_example : Ends (StuckAt one_page) (one_instruction one_page)
one_instruction-Ends_example =
    one_instruction-Ends (record { processor = one_page-IsProcessor; table = one_page-HasTable })

-- DIV of -2 ^ 31 by -1.
div_stops_host :
    execute op_div
      (record { op_code = op_div; rs = 0; rt = 1; rd = 0; extra = 0 })
      (record one_page { registers = 2147483648 ∷ 4294967295 ∷ replicate 38 0 })
      108
    ≡ fault
unfolding execute divide_signed
div_stops_host = refl
