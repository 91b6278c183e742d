-- ===== src/Machine/Translate.antt =====
-- machine/translate.cc: virtual addresses through the page table or the TLB, and the reads and
-- writes of user memory. The host is little-endian, so a short or a word in memory is its bytes, the
-- lowest first, and the conversions to and from the machine's order do nothing.
pub mod Bounds
pub mod Mapping
pub mod ReadBack
use nach_os.Base.{
  ℕ, zero, suc, ◌+◌, ◌*◌, ◌/◌, ◌%◌, ◌^◌, Bool, true, false, not, ◌&&◌, ◌||◌, List, [], ◌∷◌, Option,
  none, some, Result, ok, abort, fault, ◌>>=◌, ◌>>◌, assert, in_bounds, bit_and, leb, ltb, ◌==◌,
  if◌then◌else◌, get_elem?, set,
}
use nach_os.Machine.{
  Machine, ExceptionType, no_exception, page_fault_exception, read_only_exception,
  bus_error_exception, address_error_exception, TranslationEntry, page_size, num_phys_pages,
  memory_size, tlb_size,
}

-- What Translate returns: an exception, or a physical address with the bits of the entry set.
pub data Translation : Type 0 where
  refused : ExceptionType → Translation
  translated : ℕ → Machine → Translation

-- The entry that Translate looks up, with the index where it stands, or the exception.
pub data Lookup : Type 0 where
  missing : ExceptionType → Lookup
  found : ℕ → TranslationEntry → Lookup

-- `((size == 4) && (virtAddr & 0x3)) || ((size == 2) && (virtAddr & 0x1))`
abbrev pub misaligned : ℕ → ℕ → Bool
misaligned virt_addr size =
    (size == 4 && not (bit_and virt_addr 3 == 0)) || (size == 2 && not (bit_and virt_addr 1 == 0))

-- The entry of the page table.
unfoldable pub lookup_page : List TranslationEntry → ℕ → ℕ → Result Lookup
lookup_page table page_table_size vpn =
    let here = in_bounds (get_elem? table vpn) >>= λ entry.
    ok (if entry.valid then found vpn entry else missing page_fault_exception) in
    if leb page_table_size vpn then ok (missing address_error_exception) else here

-- The loop over the TLB from entry `i` on, with `n` rounds left.
unfoldable pub lookup_tlb : ℕ → ℕ → List TranslationEntry → ℕ → Result Lookup
lookup_tlb zero i tlb vpn = ok (missing page_fault_exception)
lookup_tlb (suc n) i tlb vpn = do
  entry ← in_bounds (get_elem? tlb i)
  let rest = lookup_tlb n (suc i) tlb vpn
  if entry.valid && entry.virtual_page == vpn then ok (found i entry) else rest

-- Neither table, or both, is a failed assertion.
unfoldable pub lookup : Machine → ℕ → Result Lookup
lookup m vpn = by_table m.tlb m.page_table
  where
    by_table : Option (List TranslationEntry) → Option (List TranslationEntry) → Result Lookup
    by_table (some tlb) (some table) = abort
    by_table none none = abort
    by_table none (some table) = lookup_page table m.page_table_size vpn
    by_table (some tlb) none = lookup_tlb tlb_size 0 tlb vpn

-- The entry at `i` of the table in use is replaced.
unfoldable pub replace_entry : Machine → ℕ → TranslationEntry → Machine
replace_entry m i entry = record m { tlb = put m.tlb; page_table = put m.page_table }
  where
    put : Option (List TranslationEntry) → Option (List TranslationEntry)
    put none = none
    put (some table) = some (set table i entry)

-- The bits that an access sets.
abbrev pub touch : TranslationEntry → Bool → TranslationEntry
touch entry writing = record entry { use_bit = true; dirty = if writing then true else entry.dirty }

-- Translate, once the entry is looked up.
unfoldable pub use_entry : Machine → Lookup → ℕ → ℕ → Bool → Result Translation
use_entry m (missing exception) offset size writing = ok (refused exception)
use_entry m (found i entry) offset size writing =
    let phys_addr = entry.physical_page * page_size + offset in
    let access =
      assert (leb (phys_addr + size) memory_size)
      >> ok (translated phys_addr (replace_entry m i (touch entry writing))) in
    if entry.read_only && writing
    then ok (refused read_only_exception)
    else if leb num_phys_pages entry.physical_page
    then ok (refused bus_error_exception)
    else access

unfoldable pub translate : Machine → ℕ → ℕ → Bool → Result Translation
translate m virt_addr size writing =
    let access = lookup m (virt_addr / page_size) >>= λ l.
    use_entry m l (virt_addr % page_size) size writing in
    if misaligned virt_addr size then ok (refused address_error_exception) else access

-- The number that the `n` bytes from `a` on stand for.
unfoldable pub load_bytes : ℕ → (ℕ → ℕ) → ℕ → ℕ
load_bytes zero memory a = 0
load_bytes (suc n) memory a = memory a + 256 * load_bytes n memory (suc a)

unfoldable pub store_bytes : ℕ → (ℕ → ℕ) → ℕ → ℕ → ℕ → ℕ
store_bytes zero memory a value = memory
store_bytes (suc n) memory a value =
    store_bytes n (λ k. if a == k then value % 256 else memory k) (suc a) (value / 256)

-- A byte of memory is a `char`, which the host reads with its sign.
abbrev pub sign_extend_byte : ℕ → ℕ
sign_extend_byte b = if ltb b 128 then b else b + 4294967040

abbrev pub is_size : ℕ → Bool
is_size size = size == 1 || (size == 2 || size == 4)

-- What an access to memory ends with: an exception at an address, for RaiseException, or a value.
pub data Access : Type 0 where
  raised : ExceptionType → Access
  value : ℕ → Machine → Access

unfoldable pub read_translated : ℕ → Translation → Result Access
read_translated size (refused exception) = ok (raised exception)
read_translated size (translated a m) =
    let data_read = load_bytes size m.main_memory a in
    assert (is_size size)
    >> ok (value (if size == 1 then sign_extend_byte data_read else data_read) m)

-- ReadMem
unfoldable pub read_mem : Machine → ℕ → ℕ → Result Access
unfolding read_translated
read_mem m addr size = translate m addr size false >>= read_translated size

unfoldable pub write_translated : ℕ → ℕ → Translation → Result Access
write_translated size v (refused exception) = ok (raised exception)
write_translated size v (translated a m) =
    assert (is_size size)
    >> ok (value v (record m { main_memory = store_bytes size m.main_memory a v }))

-- WriteMem
unfoldable pub write_mem : Machine → ℕ → ℕ → ℕ → Result Access
unfolding write_translated
write_mem m addr size v = translate m addr size true >>= write_translated size v
