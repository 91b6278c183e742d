-- ===== src/Filesys/FileHeader/RoundTrip.antt =====
-- Deallocate undoes Allocate, on the set of marked sectors.
use nach_os.Base.{
  ℕ, ◌≤◌, ◌<◌, ◌≡◌, true, false, List, [], ◌∷◌, ok, length, All, contains, arith, ==_refl,
  Bool-cases, inl, inr, All-contains,
}
use nach_os.Bitmap.{Bitmap, div_round_up}
use nach_os.Bitmap.View.{is_marked, IsValid}
use nach_os.Filesys.FileHeader.{FileHeader, allocate, deallocate}
use nach_os.Filesys.FileHeader.Allocation.{
  Taken, Released, Held, clears, allocate_ok, deallocate_lem,
}

All-of_contains {κ} :
    (P : ℕ → Type κ) (xs : List ℕ) → ((k : ℕ) → contains xs k ≡ true → P k) → All P xs
All-of_contains P [] f = tt
All-of_contains P (x ∷ xs) f =
    (f x (ground (arith, ==_refl x)), All-of_contains P xs (λ k h. f k (ground arith)))

pub Taken-Held : {b b' : Bitmap} {xs : List ℕ} → Taken b xs b' → All (Held b') xs
Taken-Held {b} {b'} {xs} t = All-of_contains (Held b') xs λ k h. (
  rw t.num_bits (All-contains (λ j. (j < b.num_bits) × (is_marked b j ≡ false)) xs k t.fresh h).0,
  ground (arith, t.bits k),
)

pub restored :
    {b b' b'' : Bitmap} {xs : List ℕ}
    → Taken b xs b'
    → Released b' xs b''
    → (j : ℕ) → is_marked b'' j ≡ is_marked b j
restored {b} {b'} {b''} {xs} t r j = elim (Bool-cases (contains xs j)) [
  | inl held ↦ ground (
    arith,
    r.bits j,
    (All-contains (λ k. (k < b.num_bits) × (is_marked b k ≡ false)) xs j t.fresh held).1,
  )
  | inr other ↦ ground (arith, r.bits j, t.bits j)
]

-- Allocating a file that fits and deallocating it succeeds, and leaves each sector marked exactly
-- when it was marked before.
pub deallocate-allocate :
    (h : FileHeader) {b : Bitmap} (size : ℕ)
    → IsValid b
    → div_round_up size 128 ≤ clears b
    → div_round_up size 128 ≤ length h.data_sectors
    → (h' : FileHeader) × (b' : Bitmap) × (b'' : Bitmap) × (allocate h b size ≡ ok (true, h', b'))
      × (deallocate h' b' ≡ ok b'')
      × ((j : ℕ) → is_marked b'' j ≡ is_marked b j)
deallocate-allocate h size v p q =
    let (h', b', e, _, n, l, _, t) = allocate_ok h size v p q in
    let (b'', e', r) = deallocate_lem h' t.valid (rw (n, l) q) (Taken-Held t) t.distinct in
    (h', b', b'', e, e', restored t r)
