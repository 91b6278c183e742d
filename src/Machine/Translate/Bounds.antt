-- ===== src/Machine/Translate/Bounds.antt =====
-- Translate: it always returns, and an address that it translates to lies in main memory.
use nach_os.Base.{
  ℕ, zero, suc, ◌+◌, ◌*◌, ◌/◌, ◌%◌, ◌≤◌, ◌≡◌, refl, Bool, true, false, List, none, some, Result, ok,
  arith, length, bit_and, inl, inr, Bool-cases, leb, get_elem?-lt, ◌&&◌, ◌==◌, if◌then◌else◌,
  le→leb,
}
use nach_os.Base.Words.{bit_and_step, bit_and-zero}
use native.Mathlib.Decide.{dec_le}
use nach_os.Machine.{
  Machine, ExceptionType, page_fault_exception, read_only_exception, bus_error_exception,
  address_error_exception, TranslationEntry, page_size, num_phys_pages, memory_size, tlb_size,
}
use nach_os.Machine.Translate.{
  Translation, refused, translated, Lookup, missing, found, misaligned, lookup_page, lookup_tlb,
  lookup, use_entry, translate, replace_entry, touch, is_size,
}

-- The processor has a page table or a TLB, and not both.
pub data HasTable (m : Machine) : Type 0 where
  paged :
      {table : List TranslationEntry}
      → m.tlb ≡ none
      → m.page_table ≡ some table
      → length table ≡ m.page_table_size
      → HasTable m
  cached :
      {tlb : List TranslationEntry}
      → m.tlb ≡ some tlb
      → m.page_table ≡ none
      → length tlb ≡ tlb_size
      → HasTable m

-- Why Translate returns what it returns.
pub data Outcome (m : Machine) (addr size : ℕ) (writing : Bool) : Translation → Type 0 where
  unaligned :
      misaligned addr size ≡ true → Outcome m addr size writing (refused address_error_exception)
  unmapped :
      {e : ExceptionType}
      → misaligned addr size ≡ false
      → lookup m (addr / page_size) ≡ ok (missing e)
      → Outcome m addr size writing (refused e)
  protected :
      {i : ℕ} {entry : TranslationEntry}
      → misaligned addr size ≡ false
      → lookup m (addr / page_size) ≡ ok (found i entry)
      → entry.read_only ≡ true
      → writing ≡ true
      → Outcome m addr size writing (refused read_only_exception)
  no_frame :
      {i : ℕ} {entry : TranslationEntry}
      → misaligned addr size ≡ false
      → (entry.read_only && writing) ≡ false
      → lookup m (addr / page_size) ≡ ok (found i entry)
      → num_phys_pages ≤ entry.physical_page
      → Outcome m addr size writing (refused bus_error_exception)
  mapped :
      {i : ℕ} {entry : TranslationEntry}
      → lookup m (addr / page_size) ≡ ok (found i entry)
      → (entry.read_only && writing) ≡ false
      → misaligned addr size ≡ false
      → entry.physical_page * page_size + addr % page_size + size ≤ memory_size
      → Outcome m addr size writing (
          translated
            (entry.physical_page * page_size + addr % page_size)
            (replace_entry m i (touch entry writing)))

pub bit_and-three : (a : ℕ) → bit_and a 3 ≡ a % 4
bit_and-three a = omega (arith, bit_and_step a 3, bit_and_step (a / 2) 1, bit_and-zero (a / 2 / 2))

pub bit_and-one : (a : ℕ) → bit_and a 1 ≡ a % 2
bit_and-one a = omega (arith, bit_and_step a 1, bit_and-zero (a / 2))

-- An aligned access does not cross a page.
in_page :
    (addr size : ℕ)
    → is_size size ≡ true
    → misaligned addr size ≡ false
    → addr % page_size + size ≤ page_size
in_page addr size s a = ground (arith, bit_and-three addr, bit_and-one addr)

lookup_page-returns :
    (table : List TranslationEntry) (n vpn : ℕ)
    → length table ≡ n
    → (l : Lookup) × (lookup_page table n vpn ≡ ok l)
unfolding lookup_page
lookup_page-returns table n vpn h = elim (dec_le n vpn) [
  | yes out ↦ (missing address_error_exception, rw (le→leb n vpn out) refl)
  | no inside ↦
      let (entry, e) = get_elem?-lt table vpn (omega arith) in
      let within : leb n vpn ≡ false = ground arith in
      (if entry.valid then found vpn entry else missing page_fault_exception, rw (within, e) refl)
]

lookup_tlb-returns :
    (n i : ℕ) (tlb : List TranslationEntry) (vpn : ℕ)
    → i + n ≤ length tlb
    → (l : Lookup) × (lookup_tlb n i tlb vpn ≡ ok l)
unfolding lookup_tlb
lookup_tlb-returns zero i tlb vpn h = (missing page_fault_exception, refl)
lookup_tlb-returns (suc n) i tlb vpn h =
    let (entry, e) = get_elem?-lt tlb i (omega arith) in
    let (l, e') = lookup_tlb-returns n (suc i) tlb vpn (omega arith) in
    (
      if entry.valid && entry.virtual_page == vpn then found i entry else l,
      rw (e, e') (by_hit (found i entry) l (entry.valid && entry.virtual_page == vpn)),
    )
  where
    by_hit :
        (x y : Lookup) (hit : Bool)
        → ◌≡◌ {A = Result Lookup} (if hit then ok x else ok y) (ok (if hit then x else y))
    by_hit x y true = refl
    by_hit x y false = refl

lookup-returns : {m : Machine} (vpn : ℕ) → HasTable m → (l : Lookup) × (lookup m vpn ≡ ok l)
unfolding lookup
lookup-returns {m} vpn (paged no_tlb has size) =
    let (l, e) = lookup_page-returns _ m.page_table_size vpn size in (l, rw (no_tlb, has) e)
lookup-returns {m} vpn (cached {tlb} has no_table size) =
    let (l, e) = lookup_tlb-returns tlb_size 0 tlb vpn (omega arith) in (l, rw (has, no_table) e)

-- What is done with the entry, of an access that is aligned.
use_entry-Outcome :
    (m : Machine) (addr size : ℕ) (writing : Bool) (l : Lookup)
    → is_size size ≡ true
    → misaligned addr size ≡ false
    → lookup m (addr / page_size) ≡ ok l
    → (r : Translation) × (use_entry m l (addr % page_size) size writing ≡ ok r)
      × Outcome m addr size writing r
unfolding use_entry
use_entry-Outcome m addr size writing (missing e) s a h = (refused e, refl, unmapped a h)
use_entry-Outcome m addr size writing (found i entry) s a h =
    elim (Bool-cases (entry.read_only && writing)) [
      | inl denied ↦ (
        refused read_only_exception,
        rw denied refl,
        protected a h (ground (arith, denied)) (ground (arith, denied)),
      )
      | inr allowed ↦ elim (dec_le num_phys_pages entry.physical_page) [
        | yes high ↦ (
          refused bus_error_exception,
          rw (allowed, le→leb num_phys_pages entry.physical_page high) refl,
          no_frame a allowed h high,
        )
        | no low ↦
            let fits : entry.physical_page * page_size + addr % page_size + size ≤ memory_size =
              omega (arith, in_page addr size s a) in
            let in_memory : leb num_phys_pages entry.physical_page ≡ false = ground arith in
            (
              translated _ _,
              rw (allowed, in_memory, le→leb _ memory_size fits) refl,
              mapped h allowed a fits,
            )
      ]
    ]

-- Translate always returns, for the reason that the look-up and the entry give.
pub translate_ok :
    {m : Machine} (addr size : ℕ) (writing : Bool)
    → HasTable m
    → is_size size ≡ true
    → (r : Translation) × (translate m addr size writing ≡ ok r) × Outcome m addr size writing r
unfolding translate
translate_ok {m} addr size writing v s = elim (Bool-cases (misaligned addr size)) [
  | inl bad ↦ (refused address_error_exception, rw bad refl, unaligned bad)
  | inr good ↦
      let (l, e) = lookup-returns (addr / page_size) v in
      let (r, e', o) = use_entry-Outcome m addr size writing l s good e in (r, rw (good, e) e', o)
]
