-- ===== src/Machine/Translate/Mapping.antt =====
-- Which entry maps a page, and what Translate makes of it, stated by the tables.
use nach_os.Base.{
  ℕ, zero, suc, ◌+◌, ◌*◌, ◌/◌, ◌%◌, ◌≤◌, ◌<◌, ◌≡◌, ◌≢◌, refl, sym, ◌∙◌, ap, subst, Bool, true,
  false, List, none, some, Result, ok, arith, length, inl, inr, Bool-cases, leb, get_elem?,
  get_elem?-lt, set, ◌&&◌, ◌||◌, ◌==◌, ==_iff, le→leb,
}
use native.Mathlib.Decide.{dec_le}
use nach_os.Machine.{
  Machine, ExceptionType, page_fault_exception, read_only_exception, bus_error_exception,
  address_error_exception, TranslationEntry, page_size, num_phys_pages, memory_size, tlb_size,
}
use nach_os.Machine.Translate.{
  Translation, refused, translated, Lookup, missing, found, misaligned, lookup_page, lookup_tlb,
  lookup, translate, replace_entry, touch, is_size,
}
use nach_os.Machine.Translate.Bounds.{
  HasTable, paged, cached, Outcome, unaligned, unmapped, protected, no_frame, mapped, translate_ok,
  bit_and-three, bit_and-one,
}

-- A valid entry of the virtual page.
abbrev pub Hits : ℕ → List TranslationEntry → ℕ → TranslationEntry → Type 0
Hits vpn table i entry =
    (get_elem? table i ≡ some entry) × (entry.valid ≡ true) × (entry.virtual_page ≡ vpn)

-- The entry with its use bit set, and its dirty bit if the access writes.
abbrev pub accessed : TranslationEntry → Bool → TranslationEntry
accessed entry writing = record {
  virtual_page = entry.virtual_page;
  physical_page = entry.physical_page;
  valid = entry.valid;
  read_only = entry.read_only;
  use_bit = true;
  dirty = writing || entry.dirty;
}

-- The table maps the page by the entry, and `m'` is the processor with the entry accessed: the entry
-- of the page table at the page, or the first one of the TLB for the page, if it is valid.
pub data Maps (m : Machine) (vpn : ℕ) (writing : Bool) (entry : TranslationEntry) (m' : Machine)
    : Type 0 where
  by_page :
      {table : List TranslationEntry}
      → m.tlb ≡ none
      → m.page_table ≡ some table
      → vpn < m.page_table_size
      → get_elem? table vpn ≡ some entry
      → entry.valid ≡ true
      → m' ≡ (record m { page_table = some (set table vpn (accessed entry writing)) })
      → Maps m vpn writing entry m'
  by_tlb :
      {tlb : List TranslationEntry} (i : ℕ)
      → m.tlb ≡ some tlb
      → m.page_table ≡ none
      → i < tlb_size
      → Hits vpn tlb i entry
      → ((j : ℕ) (e : TranslationEntry) → j < i → Hits vpn tlb j e → ⊥)
      → m' ≡ (record m { tlb = some (set tlb i (accessed entry writing)) })
      → Maps m vpn writing entry m'

-- The page is beyond the page table, its entry is not valid, or the TLB has no valid entry for it.
pub data Unmapped (m : Machine) (vpn : ℕ) : ExceptionType → Type 0 where
  beyond :
      {table : List TranslationEntry}
      → m.tlb ≡ none
      → m.page_table ≡ some table
      → m.page_table_size ≤ vpn
      → Unmapped m vpn address_error_exception
  invalid :
      {table : List TranslationEntry} {entry : TranslationEntry}
      → m.tlb ≡ none
      → m.page_table ≡ some table
      → vpn < m.page_table_size
      → get_elem? table vpn ≡ some entry
      → entry.valid ≡ false
      → Unmapped m vpn page_fault_exception
  no_entry :
      {tlb : List TranslationEntry}
      → m.tlb ≡ some tlb
      → m.page_table ≡ none
      → ((j : ℕ) (e : TranslationEntry) → j < tlb_size → Hits vpn tlb j e → ⊥)
      → Unmapped m vpn page_fault_exception

-- What Translate returns, and why.
pub data Translates (m : Machine) (addr size : ℕ) (writing : Bool) : Translation → Type 0 where
  crooked : addr % size ≢ 0 → Translates m addr size writing (refused address_error_exception)
  not_mapped :
      {e : ExceptionType}
      → addr % size ≡ 0
      → Unmapped m (addr / page_size) e
      → Translates m addr size writing (refused e)
  write_protected :
      {entry : TranslationEntry} {m' : Machine}
      → addr % size ≡ 0
      → Maps m (addr / page_size) writing entry m'
      → entry.read_only ≡ true
      → writing ≡ true
      → Translates m addr size writing (refused read_only_exception)
  out_of_memory :
      {entry : TranslationEntry} {m' : Machine}
      → addr % size ≡ 0
      → Maps m (addr / page_size) writing entry m'
      → (entry.read_only && writing) ≡ false
      → num_phys_pages ≤ entry.physical_page
      → Translates m addr size writing (refused bus_error_exception)
  in_memory :
      {entry : TranslationEntry} {m' : Machine}
      → addr % size ≡ 0
      → Maps m (addr / page_size) writing entry m'
      → (entry.read_only && writing) ≡ false
      → entry.physical_page * page_size + addr % page_size + size ≤ memory_size
      → Translates m addr size writing
          (translated (entry.physical_page * page_size + addr % page_size) m')

-- What the loop over `n` entries of the TLB from `i` on finds.
data Searched (vpn : ℕ) (tlb : List TranslationEntry) (i n : ℕ) : Lookup → Type 0 where
  hit :
      {k : ℕ} {entry : TranslationEntry}
      → i ≤ k
      → k < i + n
      → Hits vpn tlb k entry
      → ((j : ℕ) (e : TranslationEntry) → i ≤ j → j < k → Hits vpn tlb j e → ⊥)
      → Searched vpn tlb i n (found k entry)
  miss :
      ((j : ℕ) (e : TranslationEntry) → i ≤ j → j < i + n → Hits vpn tlb j e → ⊥)
      → Searched vpn tlb i n (missing page_fault_exception)

Searched-next :
    (vpn : ℕ) (tlb : List TranslationEntry) (i n : ℕ) (l : Lookup)
    → ((e : TranslationEntry) → Hits vpn tlb i e → ⊥)
    → Searched vpn tlb (suc i) n l
    → Searched vpn tlb i (suc n) l
Searched-next vpn tlb i n _ not_here (hit {k} {entry} low high here before) =
    hit (omega arith) (omega arith) here λ j e p q h. elim (dec_le (suc i) j) [
      | yes behind ↦ before j e behind q h
      | no at ↦ not_here e (subst (λ x. Hits vpn tlb x e) (omega arith) h)
    ]
Searched-next vpn tlb i n _ not_here (miss nowhere) = miss λ j e p q h. elim (dec_le (suc i) j) [
  | yes behind ↦ nowhere j e behind (omega arith) h
  | no at ↦ not_here e (subst (λ x. Hits vpn tlb x e) (omega arith) h)
]

no_hit :
    (tlb : List TranslationEntry) (i : ℕ) (entry : TranslationEntry) (vpn : ℕ)
    → get_elem? tlb i ≡ some entry
    → (entry.valid && entry.virtual_page == vpn) ≡ false
    → (x : TranslationEntry) → Hits vpn tlb i x
    → ⊥
no_hit tlb i entry vpn e other x (at, valid, page) =
    let same : x ≡ entry = cc in
    let valid' : entry.valid ≡ true = ap (λ (t : TranslationEntry). t.valid) (sym same) ∙ valid in
    let page' : entry.virtual_page ≡ vpn =
      ap (λ (t : TranslationEntry). t.virtual_page) (sym same) ∙ page in
    let both : (entry.valid && entry.virtual_page == vpn) ≡ true =
      ap (λ b. b && entry.virtual_page == vpn) valid' ∙ (==_iff _ _).1 page' in
    let no : ◌≡◌ {A = Bool} true false = sym both ∙ other in cc

lookup_tlb-Searched :
    (n i : ℕ) (tlb : List TranslationEntry) (vpn : ℕ)
    → i + n ≤ length tlb
    → (l : Lookup) × (lookup_tlb n i tlb vpn ≡ ok l) × Searched vpn tlb i n l
unfolding lookup_tlb
lookup_tlb-Searched zero i tlb vpn h =
    (missing page_fault_exception, refl, miss λ j e p q x. omega arith)
lookup_tlb-Searched (suc n) i tlb vpn h =
    let (entry, e) = get_elem?-lt tlb i (omega arith) in
    let (l, e', s) = lookup_tlb-Searched n (suc i) tlb vpn (omega arith) in
    elim (Bool-cases (entry.valid && entry.virtual_page == vpn)) [
      | inl here ↦ (
        found i entry,
        rw (e, here) refl,
        hit (omega arith) (omega arith) (e, ground (arith, here), ground (arith, here))
            (λ j x p q y. omega arith),
      )
      | inr other ↦ (
        l,
        rw (e, other) e',
        Searched-next vpn tlb i n l
            (λ x (at, valid, page). no_hit tlb i entry vpn e other x (at, valid, page)) s,
      )
    ]

touch-accessed :
    (entry : TranslationEntry) (writing : Bool) → touch entry writing ≡ accessed entry writing
touch-accessed entry true = refl
touch-accessed entry false = refl

-- What a look-up says of the tables.
abbrev Looked : Machine → ℕ → Bool → Lookup → Type 0
Looked m vpn writing (missing e) = Unmapped m vpn e
Looked m vpn writing (found i entry) =
    Maps m vpn writing entry (replace_entry m i (touch entry writing))

module _ {m : Machine} (vpn : ℕ) (writing : Bool) where
  replaced_page :
      {table : List TranslationEntry} (i : ℕ) (entry : TranslationEntry)
      → m.tlb ≡ none
      → m.page_table ≡ some table
      → replace_entry m i (touch entry writing)
        ≡ (record m { page_table = some (set table i (accessed entry writing)) })
  unfolding replace_entry
  replaced_page i entry no_tlb has = rw (touch-accessed entry writing, no_tlb, has) refl

  replaced_tlb :
      {tlb : List TranslationEntry} (i : ℕ) (entry : TranslationEntry)
      → m.tlb ≡ some tlb
      → m.page_table ≡ none
      → replace_entry m i (touch entry writing)
        ≡ (record m { tlb = some (set tlb i (accessed entry writing)) })
  unfolding replace_entry
  replaced_tlb i entry has no_table = rw (touch-accessed entry writing, has, no_table) refl

  lookup-Looked : HasTable m → (l : Lookup) × (lookup m vpn ≡ ok l) × Looked m vpn writing l
  unfolding lookup lookup_page
  lookup-Looked (paged {table} no_tlb has size) = elim (dec_le m.page_table_size vpn) [
    | yes out ↦ (
      missing address_error_exception,
      rw (no_tlb, has, le→leb m.page_table_size vpn out) refl,
      beyond no_tlb has out,
    )
    | no inside ↦
        let (e, at) = get_elem?-lt table vpn (omega arith) in
        let within : leb m.page_table_size vpn ≡ false = ground arith in
        elim (Bool-cases e.valid) [
          | inl valid ↦ (
            found vpn e,
            rw (no_tlb, has, within, at, valid) refl,
            by_page no_tlb has (omega arith) at valid (replaced_page vpn e no_tlb has),
          )
          | inr broken ↦ (
            missing page_fault_exception,
            rw (no_tlb, has, within, at, broken) refl,
            invalid no_tlb has (omega arith) at broken,
          )
        ]
  ]
  lookup-Looked (cached {tlb} has no_table size) =
      let (l, e, s) = lookup_tlb-Searched tlb_size 0 tlb vpn (omega arith) in
      (l, rw (has, no_table) e, by_search l s)
    where
      by_search : (l : Lookup) → Searched vpn tlb 0 tlb_size l → Looked m vpn writing l
      by_search _ (hit {k} {entry} low high here before) =
          by_tlb k has no_table high here (λ j e p h. before j e (omega arith) p h)
            (replaced_tlb k entry has no_table)
      by_search _ (miss nowhere) = no_entry has no_table λ j e p h. nowhere j e (omega arith) p h

  looked : {l : Lookup} → HasTable m → lookup m vpn ≡ ok l → Looked m vpn writing l
  looked v h =
      let (l', e, x) = lookup-Looked v in
      subst (Looked m vpn writing) (ap (unwrap l') (sym e ∙ h)) x
    where
      unwrap : Lookup → Result Lookup → Lookup
      unwrap other (ok l) = l
      unwrap other _ = other

aligned :
    (addr size : ℕ)
    → is_size size ≡ true
    → (misaligned addr size ≡ false → addr % size ≡ 0)
      × (misaligned addr size ≡ true → addr % size ≢ 0)
aligned addr size s = elim (Bool-cases (size == 1)) [
  | inl one ↦ (λ a. ground (arith), λ b. ground arith)
  | inr more ↦ elim (Bool-cases (size == 2)) [
    | inl two ↦ (λ a. ground (arith, bit_and-one addr), λ b. ground (arith, bit_and-one addr))
    | inr four ↦ (λ a. ground (arith, bit_and-three addr), λ b. ground (arith, bit_and-three addr))
  ]
]

-- Translate, of one, two or four bytes and with one table, always returns, no assertion failing. It
-- refuses an access that is misaligned, that the table does not map, that writes to a read-only page,
-- or whose page frame is not in memory, with the exception for it; else the access lies in main
-- memory, at the offset of the virtual address in the entry's page frame, and the entry has its use
-- bit set, and its dirty bit if it is a write, and nothing else has changed.
pub translate_lem :
    {m : Machine} (addr size : ℕ) (writing : Bool)
    → HasTable m
    → is_size size ≡ true
    → (r : Translation) × (translate m addr size writing ≡ ok r) × Translates m addr size writing r
translate_lem {m} addr size writing v s =
    let (r, e, o) = translate_ok addr size writing v s in (r, e, by_outcome r o)
  where
    by_outcome :
        (r : Translation) → Outcome m addr size writing r → Translates m addr size writing r
    by_outcome _ (unaligned bad) = crooked ((aligned addr size s).1 bad)
    by_outcome _ (unmapped a h) = not_mapped ((aligned addr size s).0 a) (looked _ writing v h)
    by_outcome _ (protected a h only w) =
        write_protected ((aligned addr size s).0 a) (looked _ writing v h) only w
    by_outcome _ (no_frame a allowed h high) =
        out_of_memory ((aligned addr size s).0 a) (looked _ writing v h) allowed high
    by_outcome _ (mapped h allowed a fits) =
        in_memory ((aligned addr size s).0 a) (looked _ writing v h) allowed fits
