-- ===== src/Machine/Translate/ReadBack.antt =====
-- ReadMem after WriteMem at the same address.
use nach_os.Base.{
  ℕ, zero, suc, ◌+◌, ◌*◌, ◌/◌, ◌%◌, ◌^◌, ◌≤◌, ◌<◌, ◌≡◌, refl, ap, ap₂, ◌∙◌, sym, subst, Bool, true,
  false, List, Result, ok, arith, length, set, Bool-cases, inl, inr, leb, le→leb, ◌&&◌, ◌==◌,
  if◌then◌else◌, get_elem?-lt, ==_refl, get_elem?-set_self, get_elem?-set_ne,
}
use native.Mathlib.Decide.{dec_le}
use native.Mathlib.Nat.{
  pow-suc, one-le-pow, mod-lt, mod-eq_of_lt, mod-add-div, mul-add-mod_self_left,
}
use nach_os.Machine.{
  Machine, ExceptionType, TranslationEntry, page_size, num_phys_pages, memory_size, tlb_size,
  address_error_exception, page_fault_exception,
}
use nach_os.Machine.Translate.{
  Translation, refused, translated, Lookup, missing, found, misaligned, lookup_page, lookup_tlb,
  lookup, use_entry, translate, replace_entry, touch, is_size, load_bytes, store_bytes,
  sign_extend_byte, Access, raised, value, read_mem, write_mem, read_translated, write_translated,
}
use nach_os.Machine.Translate.Bounds.{HasTable, paged, cached, Outcome, mapped, translate_ok}

-- Bytes in memory.
store_bytes_below :
    (n : ℕ) (memory : ℕ → ℕ) (a v j : ℕ) → j < a → store_bytes n memory a v j ≡ memory j
unfolding store_bytes
store_bytes_below zero memory a v j h = refl
store_bytes_below (suc n) memory a v j h =
    store_bytes_below n _ (suc a) (v / 256) j (omega arith) ∙ ground (arith, h)

-- The lowest byte, and the others.
mod_bytes : (a p : ℕ) → 0 < p → a % (256 * p) ≡ a % 256 + 256 * (a / 256 % p)
mod_bytes a p h =
    ap (λ t. t % (256 * p)) split
    ∙ mul-add-mod_self_left (256 * p) (a / 256 / p) (a % 256 + 256 * (a / 256 % p))
    ∙ mod-eq_of_lt (omega (arith, mod-lt (a / 256) h))
  where
    split : a ≡ 256 * p * (a / 256 / p) + (a % 256 + 256 * (a / 256 % p))
    split = omega (arith, mod-add-div (a / 256) p)

load_bytes-store_bytes :
    (n : ℕ) (memory : ℕ → ℕ) (a v : ℕ) → load_bytes n (store_bytes n memory a v) a ≡ v % 256 ^ n
unfolding load_bytes store_bytes
load_bytes-store_bytes zero memory a v = omega arith
load_bytes-store_bytes (suc n) memory a v =
    let memory' : ℕ → ℕ = λ k. if a == k then v % 256 else memory k in
    let here : memory' a ≡ v % 256 = rw (==_refl a) refl in
    ap₂ (λ s t. s + 256 * t) (store_bytes_below n memory' (suc a) (v / 256) a (omega arith) ∙ here)
      (load_bytes-store_bytes n memory' (suc a) (v / 256))
    ∙ sym (
        ap (λ t. v % t) (pow-suc 256 n ∙ omega arith)
        ∙ mod_bytes v (256 ^ n) (one-le-pow n 256 (omega arith)))

found_inj :
    {i j : ℕ} {x y : TranslationEntry}
    → ◌≡◌ {A = Result Lookup} (ok (found i x)) (ok (found j y))
    → (i ≡ j) × (x ≡ y)
found_inj e = (cc, cc)

missing≢found :
    {x : ExceptionType} {i : ℕ} {y : TranslationEntry}
    → ◌≡◌ {A = Result Lookup} (ok (missing x)) (ok (found i y))
    → ⊥
missing≢found e = cc

-- An entry that is found stands in the table, is valid, and is found again with its bits changed.
lookup_page-set :
    (table : List TranslationEntry) (n vpn : ℕ) {i : ℕ} {entry : TranslationEntry} (writing : Bool)
    → length table ≡ n
    → lookup_page table n vpn ≡ ok (found i entry)
    → lookup_page (set table i (touch entry writing)) n vpn ≡ ok (found i (touch entry writing))
unfolding lookup_page
lookup_page-set table n vpn {i} {entry} writing h e = elim (dec_le n vpn) [
  | yes out ↦
      let result : lookup_page table n vpn ≡ ok (missing address_error_exception) =
        rw (le→leb n vpn out) refl in
      absurd (missing≢found (sym result ∙ e))
  | no inside ↦
      let within : leb n vpn ≡ false = ground arith in
      let (f, there) = get_elem?-lt table vpn (omega arith) in
      elim (Bool-cases f.valid) [
        | inr invalid ↦
            let result : lookup_page table n vpn ≡ ok (missing page_fault_exception) =
              rw (within, there, invalid) refl in
            absurd (missing≢found (sym result ∙ e))
        | inl valid ↦
            let result : lookup_page table n vpn ≡ ok (found vpn f) =
              rw (within, there, valid) refl in
            let (same_index, same_entry) = found_inj (sym result ∙ e) in
            let still : entry.valid ≡ true =
              ap (λ (x : TranslationEntry). x.valid) (sym same_entry) ∙ valid in
            rw
              (
                ← same_index,
                within,
                get_elem?-set_self table vpn (touch entry writing) (omega arith),
                still,
              )
              refl
      ]
]

lookup_tlb-set :
    (n k : ℕ) (tlb : List TranslationEntry) (vpn : ℕ) {i : ℕ} {entry : TranslationEntry}
    (writing : Bool)
    → k + n ≤ length tlb
    → lookup_tlb n k tlb vpn ≡ ok (found i entry)
    → (k ≤ i)
      × (lookup_tlb n k (set tlb i (touch entry writing)) vpn ≡ ok (found i (touch entry writing)))
unfolding lookup_tlb
lookup_tlb-set zero k tlb vpn writing h e = absurd (missing≢found e)
lookup_tlb-set (suc n) k tlb vpn {i} {entry} writing h e =
    let (f, there) = get_elem?-lt tlb k (omega arith) in
    elim (Bool-cases (f.valid && f.virtual_page == vpn)) [
      | inl hit ↦
          let result : lookup_tlb (suc n) k tlb vpn ≡ ok (found k f) = rw (there, hit) refl in
          let (same_index, same_entry) = found_inj (sym result ∙ e) in
          let still : (entry.valid && entry.virtual_page == vpn) ≡ true =
            ap (λ (x : TranslationEntry). x.valid && x.virtual_page == vpn) (sym same_entry)
            ∙ hit in
          (
            omega (arith, same_index),
            rw (← same_index, get_elem?-set_self tlb k (touch entry writing) (omega arith), still)
                refl,
          )
      | inr miss ↦
          let result : lookup_tlb (suc n) k tlb vpn ≡ lookup_tlb n (suc k) tlb vpn =
            rw (there, miss) refl in
          let (above, again) =
            lookup_tlb-set n (suc k) tlb vpn writing (omega arith) (sym result ∙ e) in
          (
            omega arith,
            rw
                (
                  get_elem?-set_ne tlb i k (touch entry writing)
                      (λ same. absurd (omega (arith, above, same))),
                  there,
                  miss,
                )
                again,
          )
    ]

lookup-replace_entry :
    {m : Machine} (vpn : ℕ) {i : ℕ} {entry : TranslationEntry} (writing : Bool)
    → HasTable m
    → lookup m vpn ≡ ok (found i entry)
    → lookup (replace_entry m i (touch entry writing)) vpn ≡ ok (found i (touch entry writing))
unfolding lookup replace_entry
lookup-replace_entry {m} vpn writing (paged {table} no_tlb has size) e =
    rw (no_tlb, has)
      (lookup_page-set table m.page_table_size vpn writing size (sym (rw (no_tlb, has) refl) ∙ e))
lookup-replace_entry {m} vpn writing (cached {tlb} has no_table size) e =
    rw (has, no_table)
      (lookup_tlb-set tlb_size 0 tlb vpn writing (omega arith)
        (sym (rw (has, no_table) refl) ∙ e)).1

-- What a read of `size` bytes gives of a value that was written: its lowest bytes, one of them with
-- its sign.
abbrev pub kept : ℕ → ℕ → ℕ
kept size v = if size == 1 then sign_extend_byte (v % 256 ^ size) else v % 256 ^ size

value_inj :
    {v w : ℕ} {m n : Machine} → ◌≡◌ {A = Result Access} (ok (value v m)) (ok (value w n)) → m ≡ n
value_inj e = cc

raised≢value :
    {x : ExceptionType} {v : ℕ} {m : Machine}
    → ◌≡◌ {A = Result Access} (ok (raised x)) (ok (value v m))
    → ⊥
raised≢value e = cc

-- An aligned access to an entry that allows it is translated.
translate_runs :
    (m : Machine) (addr size : ℕ) (writing : Bool) {i : ℕ} {entry : TranslationEntry}
    → is_size size ≡ true
    → misaligned addr size ≡ false
    → lookup m (addr / page_size) ≡ ok (found i entry)
    → (entry.read_only && writing) ≡ false
    → entry.physical_page * page_size + addr % page_size + size ≤ memory_size
    → translate m addr size writing
      ≡ ok (
          translated
            (entry.physical_page * page_size + addr % page_size)
            (replace_entry m i (touch entry writing)))
unfolding translate use_entry
translate_runs m addr size writing {entry = entry} s aligned l allowed fits =
    let in_memory : leb num_phys_pages entry.physical_page ≡ false = ground arith in
    rw (aligned, l, allowed, in_memory, le→leb _ memory_size fits) refl

-- A read of what was written at an address, through the entry that the write has changed.
read_written :
    (m : Machine) (addr size v : ℕ) {i : ℕ} {entry : TranslationEntry}
    → HasTable m
    → is_size size ≡ true
    → misaligned addr size ≡ false
    → lookup m (addr / page_size) ≡ ok (found i entry)
    → entry.physical_page * page_size + addr % page_size + size ≤ memory_size
    → let a = entry.physical_page * page_size + addr % page_size in
      let m' = record (replace_entry m i (touch entry true)) {
        main_memory = store_bytes size m.main_memory a v;
      } in
      (m2 : Machine) × (read_mem m' addr size ≡ ok (value (kept size v) m2))
unfolding read_mem replace_entry lookup read_translated
read_written m addr size v {i} {entry} t s aligned l fits =
    let a = entry.physical_page * page_size + addr % page_size in
    let m' : Machine = record (replace_entry m i (touch entry true)) {
      main_memory = store_bytes size m.main_memory a v;
    } in
    let l' : lookup m' (addr / page_size) ≡ ok (found i (touch entry true)) =
      lookup-replace_entry (addr / page_size) true t l in
    let open_to_reads : (entry.read_only && false) ≡ false = ground arith in
    let m2 = replace_entry m' i (touch (touch entry true) false) in
    (
      m2,
      rw (translate_runs m' addr size false s aligned l' open_to_reads fits, s)
          (ap (λ x. ok (value (if size == 1 then sign_extend_byte x else x) m2))
            (load_bytes-store_bytes size m.main_memory a v)),
    )

-- ReadMem of the address that WriteMem has written, with the same size, succeeds, and gives the bytes
-- written, a single byte with its sign.
pub read_mem-write_mem :
    {m m' : Machine} (addr size v : ℕ)
    → HasTable m
    → is_size size ≡ true
    → write_mem m addr size v ≡ ok (value v m')
    → (m2 : Machine) × (read_mem m' addr size ≡ ok (value (kept size v) m2))
unfolding write_mem write_translated replace_entry
read_mem-write_mem {m} {m'} addr size v t s e =
    let (r, returns, outcome) = translate_ok addr size true t s in by_outcome r returns outcome
  where
    by_outcome :
        (r : Translation)
        → translate m addr size true ≡ ok r
        → Outcome m addr size true r
        → (m2 : Machine) × (read_mem m' addr size ≡ ok (value (kept size v) m2))
    by_outcome (refused x) returns o =
        let result : write_mem m addr size v ≡ ok (raised x) = rw returns refl in
        absurd (raised≢value (sym result ∙ e))
    by_outcome (translated _ _) returns (mapped {i} {entry} l allowed aligned fits) =
        let a = entry.physical_page * page_size + addr % page_size in
        let result : write_mem m addr size v
            ≡ ok (
                value v (record (replace_entry m i (touch entry true)) {
                  main_memory =
                      store_bytes size (replace_entry m i (touch entry true)).main_memory a v;
                })) =
          rw (returns, s) refl in
        subst (λ x. (m2 : Machine) × (read_mem x addr size ≡ ok (value (kept size v) m2)))
          (value_inj (sym result ∙ e)) (read_written m addr size v t s aligned l fits)
