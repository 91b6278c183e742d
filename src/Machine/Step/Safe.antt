-- ===== src/Machine/Step/Safe.antt =====
-- What every instruction keeps: the registers and the table of the processor.
use nach_os.Base.{
  ℕ, ◌<◌, ◌≡◌, refl, ◌∙◌, Bool, true, false, Result, ok, fault, arith, length-set, if◌then◌else◌,
}
use nach_os.Machine.{Machine, ExceptionType, TranslationEntry, set_reg, load_reg}
use nach_os.Machine.Translate.{
  Translation, refused, translated, value, read_mem, write_mem, translate, is_size, replace_entry,
  read_translated, write_translated, touch,
}
use nach_os.Machine.Translate.Bounds.{HasTable, paged, cached, Outcome, mapped, translate_ok}
use nach_os.Machine.Step.{Step, finished, stopped, load_then, store_then, after_access}
use nach_os.Machine.Step.Delay.{IsProcessor, reg-set_reg}

-- A processor that is ready for an instruction.
pub record IsReady (m : Machine) : Type 0 where
  pub processor : IsProcessor m
  pub table : HasTable m

-- The switch ends with a ready processor, and a delayed load names a general register; or the host
-- stops for the reason `q`.
pub data Safe (q : Type 0) : Result Step → Type 0 where
  finishes :
      {m : Machine} {pc_after r v : ℕ} → IsReady m → r < 32 → Safe q (ok (finished m pc_after r v))
  stops : {e : ExceptionType} {addr : ℕ} {m : Machine} → IsReady m → Safe q (ok (stopped e addr m))
  host_stops : q → Safe q fault

pub Safe-map : {p q : Type 0} {x : Result Step} → (p → q) → Safe p x → Safe q x
Safe-map f (finishes r h) = finishes r h
Safe-map f (stops r) = stops r
Safe-map f (host_stops x) = host_stops (f x)

pub Safe-if :
    {q : Type 0} {x y : Result Step} (c : Bool) → Safe q x → Safe q y → Safe q (if c then x else y)
Safe-if true s t = s
Safe-if false s t = t

-- Registers below the pending load's may be set.
pub set_reg-IsReady : {m : Machine} (k v : ℕ) → IsReady m → k < load_reg → IsReady (set_reg m k v)
set_reg-IsReady {m} k v r h = record {
  processor = record {
    count = length-set m.registers k v ∙ r.processor.count;
    pending =
        ground (
          arith,
          reg-set_reg m k v load_reg (omega (arith, r.processor.count)),
          r.processor.pending,
        );
  };
  table = same_table r.table;
}
  where
    same_table : HasTable m → HasTable (set_reg m k v)
    same_table (paged x y z) = paged x y z
    same_table (cached x y z) = cached x y z

replace_entry-IsReady :
    {m : Machine} (i : ℕ) (e : TranslationEntry) → IsReady m → IsReady (replace_entry m i e)
unfolding replace_entry
replace_entry-IsReady {m} i e r = record {
  processor = record { count = r.processor.count; pending = r.processor.pending };
  table = new_table r.table;
}
  where
    new_table : HasTable m → HasTable (replace_entry m i e)
    new_table (paged {table} no_tlb has size) =
        paged (rw no_tlb refl) (rw has refl) (length-set table i e ∙ size)
    new_table (cached {tlb} has no_table size) =
        cached (rw has refl) (rw no_table refl) (length-set tlb i e ∙ size)

-- A read ends with an exception, or with a value and a ready processor.
pub load_then-Safe :
    {q : Type 0} {m : Machine} (addr size : ℕ) (k : ℕ → Machine → Result Step)
    → IsReady m
    → is_size size ≡ true
    → ((v : ℕ) (m' : Machine)
        → read_mem m addr size ≡ ok (value v m')
        → IsReady m'
        → m'.registers ≡ m.registers
        → Safe q (k v m'))
    → Safe q (load_then m addr size k)
unfolding read_mem after_access read_translated replace_entry
load_then-Safe {q} {m} addr size k ready s next =
    let (r, returns, outcome) = translate_ok addr size false ready.table s in
    by_outcome r returns outcome
  where
    by_outcome :
        (r : Translation)
        → translate m addr size false ≡ ok r
        → Outcome m addr size false r
        → Safe q (load_then m addr size k)
    by_outcome (refused e) returns o = rw returns (stops ready)
    by_outcome (translated p m') returns (mapped {i} {entry} l allowed aligned fits) =
        rw (returns, s)
          (next _ _ (rw (returns, s) refl) (replace_entry-IsReady i (touch entry false) ready) refl)

pub store_then-Safe :
    {q : Type 0} {m : Machine} (addr size v : ℕ) (k : Machine → Result Step)
    → IsReady m
    → is_size size ≡ true
    → ((m' : Machine) → IsReady m' → Safe q (k m'))
    → Safe q (store_then m addr size v k)
unfolding write_mem after_access write_translated
store_then-Safe {q} {m} addr size v k ready s next =
    let (r, returns, outcome) = translate_ok addr size true ready.table s in
    by_outcome r returns outcome
  where
    stored :
        {m' : Machine} (memory : ℕ → ℕ) → IsReady m' → IsReady (record m' { main_memory = memory })
    stored memory r = record {
      processor = record { count = r.processor.count; pending = r.processor.pending };
      table = same_table r.table;
    }
      where
        same_table : {m' : Machine} → HasTable m' → HasTable (record m' { main_memory = memory })
        same_table (paged x y z) = paged x y z
        same_table (cached x y z) = cached x y z

    by_outcome :
        (r : Translation)
        → translate m addr size true ≡ ok r
        → Outcome m addr size true r
        → Safe q (store_then m addr size v k)
    by_outcome (refused e) returns o = rw returns (stops ready)
    by_outcome (translated p m') returns (mapped {i} {entry} l allowed aligned fits) =
        rw (returns, s) (next _ (stored _ (replace_entry-IsReady i (touch entry true) ready)))
