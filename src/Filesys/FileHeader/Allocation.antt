-- ===== src/Filesys/FileHeader/Allocation.antt =====
-- Allocate and Deallocate against the set of marked sectors.
use nach_os.Base.{
  All-overwrite, ℕ, zero, suc, ◌+◌, ◌≤◌, ◌<◌, ◌≡◌, refl, ap, ◌∙◌, sym, subst, true, false, List, [],
  ◌∷◌, ok, fault, if◌then◌else◌, length, set, slice, overwrite, All, Distinct, contains, length-set,
  length-overwrite, slice-overwrite, get_elem?-eq-get_or, get_or, contains_of_All_ne, All-map,
  lt→ltb, ge→ltb, arith, inl, inr,
}
use native.Mathlib.Decide.{dec_lt}
use nach_os.Bitmap.{Bitmap, div_round_up}
use nach_os.Bitmap.View.{is_marked, IsValid, Updated, clear_count}
use nach_os.Bitmap.Search.{find_and_set-Found, num_clear_lem, clear_count-mark, clear_count-full}
use nach_os.Bitmap.Laws.{test-lt, clear_lem}
use nach_os.Filesys.FileHeader.{
  FileHeader, allocate_from, allocate, deallocate_from, deallocate, sectors_of, num_direct,
}

abbrev pub clears : Bitmap → ℕ
clears b = clear_count (is_marked b) b.num_bits 0

pub clears-mark :
    {b b' : Bitmap} {k : ℕ}
    → k < b.num_bits
    → is_marked b k ≡ false
    → Updated b k true b'
    → clears b ≡ suc (clears b')
clears-mark {b} {b'} {k} h free u =
    clear_count-mark (is_marked b) (is_marked b') k b.num_bits 0 free u.bits (omega arith)
      (omega arith)
    ∙ ap (λ n. suc (clear_count (is_marked b') n 0)) (sym u.num_bits)

-- `b'` is `b` with the sectors `xs`, distinct and clear in `b`, marked.
pub record Taken (b : Bitmap) (xs : List ℕ) (b' : Bitmap) : Type 0 where
  pub valid : IsValid b'
  pub num_bits : b'.num_bits ≡ b.num_bits
  pub fresh : All (λ k. (k < b.num_bits) × (is_marked b k ≡ false)) xs
  pub distinct : Distinct xs
  pub count : clears b ≡ length xs + clears b'
  pub bits : (j : ℕ) → is_marked b' j ≡ (if contains xs j then true else is_marked b j)

pub Taken-cons :
    {b b' b'' : Bitmap} {k : ℕ} {xs : List ℕ}
    → k < b.num_bits
    → is_marked b k ≡ false
    → Updated b k true b'
    → Taken b' xs b''
    → Taken b (k ∷ xs) b''
Taken-cons {b} {b'} {b''} {k} {xs} h free u t = record {
  valid = t.valid;
  num_bits = t.num_bits ∙ u.num_bits;
  fresh = (
    (h, free),
    All-map _ _ xs (λ j p. (omega (arith, u.num_bits), ground (arith, u.bits j))) t.fresh,
  );
  distinct = (
    contains_of_All_ne xs k (All-map _ _ xs (λ j p e. ground (arith, u.bits j)) t.fresh),
    t.distinct,
  );
  count = omega (arith, clears-mark h free u, t.count);
  bits = λ j. ground (arith, t.bits j, u.bits j);
}

Taken-nil : {b : Bitmap} → IsValid b → Taken b [] b
Taken-nil v = record {
  valid = v;
  num_bits = refl;
  fresh = tt;
  distinct = tt;
  count = omega arith;
  bits = λ j. refl;
}

allocate_from_lem :
    (n i : ℕ) (h : FileHeader) {b : Bitmap}
    → IsValid b
    → n ≤ clears b
    → i + n ≤ length h.data_sectors
    → (xs : List ℕ) × (b' : Bitmap) × (allocate_from n i h b
        ≡ ok (record h { data_sectors = overwrite h.data_sectors i xs }, b'))
      × (length xs ≡ n)
      × Taken b xs b'
unfolding allocate_from
allocate_from_lem zero i h {b} v p q = ([], b, refl, refl, Taken-nil v)
allocate_from_lem (suc n) i h {b} v p q = elim (find_and_set-Found v) [
  | inl (e, full) ↦ absurd (omega (arith, clear_count-full (is_marked b) b.num_bits 0 full))
  | inr (k, b', e, _, kn, free, _, u) ↦
      let below : k < b.num_bits = omega arith in
      let (xs, b'', e', l, t) =
        allocate_from_lem n (suc i) (record h { data_sectors = set h.data_sectors i k }) u.valid
          (omega (arith, clears-mark below free u))
          (omega (arith, length-set h.data_sectors i k)) in
      (
        k ∷ xs,
        b'',
        rw (e, lt→ltb i (length h.data_sectors) (omega arith)) e',
        ap suc l,
        Taken-cons below free u t,
      )
]

stored_sectors :
    (ds : List ℕ) (n : ℕ) (xs : List ℕ)
    → n ≤ length ds
    → length xs ≡ n
    → slice 0 (overwrite ds 0 xs) 0 n ≡ xs
stored_sectors ds n xs h l = rw (← l) (slice-overwrite ds 0 xs 0 (omega arith))

-- With room on the disk and in the header, Allocate succeeds: it names as many sectors as the size
-- needs, all of them clear before, distinct, and the only ones newly marked.
pub allocate_ok :
    (h : FileHeader) {b : Bitmap} (size : ℕ)
    → IsValid b
    → div_round_up size 128 ≤ clears b
    → div_round_up size 128 ≤ length h.data_sectors
    → (h' : FileHeader) × (b' : Bitmap) × (allocate h b size ≡ ok (true, h', b'))
      × (h'.num_bytes ≡ size)
      × (h'.num_sectors ≡ div_round_up size 128)
      × (length h'.data_sectors ≡ length h.data_sectors)
      × ((m : ℕ)
          → b.num_bits ≤ m
          → All (λ s. s < m) h.data_sectors
          → All (λ s. s < m) h'.data_sectors)
      × Taken b (sectors_of h') b'
unfolding allocate
allocate_ok h {b} size v p q =
    let n = div_round_up size 128 in
    let h0 : FileHeader = record h { num_bytes = size; num_sectors = n } in
    let (xs, b', e, l, t) = allocate_from_lem n 0 h0 v p (omega arith) in
    let h' : FileHeader = record h0 { data_sectors = overwrite h.data_sectors 0 xs } in
    (
      h',
      b',
      rw (num_clear_lem v, ge→ltb (clears b) n p, e),
      refl,
      refl,
      length-overwrite h.data_sectors 0 xs,
      (λ k l a.
          All-overwrite (λ s. s < k) h.data_sectors 0 xs
            (All-map _ _ xs (λ s p. omega (arith, p.0)) t.fresh) a),
      subst (λ ys. Taken b ys b') (sym (stored_sectors h.data_sectors n xs (omega arith) l)) t,
    )

-- Without room on the disk Allocate returns FALSE and marks nothing.
pub allocate_no_space :
    (h : FileHeader) {b : Bitmap} (size : ℕ)
    → IsValid b
    → clears b < div_round_up size 128
    → allocate h b size
      ≡ ok (false, record h { num_bytes = size; num_sectors = div_round_up size 128 }, b)
unfolding allocate
allocate_no_space h {b} size v p = rw (num_clear_lem v, lt→ltb (clears b) (div_round_up size 128) p)

-- The loop past the end of the array.
allocate_from-fault :
    (n i : ℕ) (h : FileHeader) {b : Bitmap}
    → IsValid b
    → n ≤ clears b
    → i ≤ length h.data_sectors
    → length h.data_sectors < i + n
    → allocate_from n i h b ≡ fault
unfolding allocate_from
allocate_from-fault zero i h {b} v p q r = absurd (omega arith)
allocate_from-fault (suc n) i h {b} v p q r = elim (find_and_set-Found v) [
  | inl (e, full) ↦ absurd (omega (arith, clear_count-full (is_marked b) b.num_bits 0 full))
  | inr (k, b', e, _, kn, free, _, u) ↦ elim (dec_lt i (length h.data_sectors)) [
    | no past ↦ rw (e, ge→ltb i (length h.data_sectors) (omega arith))
    | yes fits ↦
        let below : k < b.num_bits = omega arith in
        rw (e, lt→ltb i (length h.data_sectors) fits)
          (allocate_from-fault n (suc i) (record h { data_sectors = set h.data_sectors i k })
            u.valid (omega (arith, clears-mark below free u))
            (omega (arith, length-set h.data_sectors i k))
            (omega (arith, length-set h.data_sectors i k)))
  ]
]

-- Of a file of more sectors than a header holds, with room on the disk, Allocate has no check: it
-- stores past the end of the array of sectors.
pub allocate-fault :
    (h : FileHeader) {b : Bitmap} (size : ℕ)
    → IsValid b
    → length h.data_sectors ≡ num_direct
    → num_direct < div_round_up size 128
    → div_round_up size 128 ≤ clears b
    → allocate h b size ≡ fault
unfolding allocate
allocate-fault h {b} size v l p q =
    let n = div_round_up size 128 in
    rw (
      num_clear_lem v,
      ge→ltb (clears b) n q,
      allocate_from-fault n 0 (record h { num_bytes = size; num_sectors = n }) v q (omega arith)
          (omega arith),
    )

-- `b'` is `b` with the sectors `xs` clear.
pub record Released (b : Bitmap) (xs : List ℕ) (b' : Bitmap) : Type 0 where
  pub valid : IsValid b'
  pub num_bits : b'.num_bits ≡ b.num_bits
  pub bits : (j : ℕ) → is_marked b' j ≡ (if contains xs j then false else is_marked b j)

Released-cons :
    {b b' b'' : Bitmap} {k : ℕ} {xs : List ℕ}
    → Updated b k false b'
    → Released b' xs b''
    → Released b (k ∷ xs) b''
Released-cons {b} {b'} {b''} {k} {xs} u r = record {
  valid = r.valid;
  num_bits = r.num_bits ∙ u.num_bits;
  bits = λ j. ground (arith, r.bits j, u.bits j);
}

abbrev pub Held : Bitmap → ℕ → Type 0
Held b k = (k < b.num_bits) × (is_marked b k ≡ true)

Held-after :
    {b b' : Bitmap} {k : ℕ} (xs : List ℕ)
    → Updated b k false b'
    → contains xs k ≡ false
    → All (Held b) xs
    → All (Held b') xs
Held-after [] u c h = tt
Held-after {b} {b'} {k} (x ∷ xs) u c h = (
  (omega (arith, u.num_bits, h.0.0), ground (arith, u.bits x)),
  Held-after xs u (ground arith) h.1,
)

deallocate_from_lem :
    (n i : ℕ) (h : FileHeader) {b : Bitmap}
    → IsValid b
    → i + n ≤ length h.data_sectors
    → All (Held b) (slice 0 h.data_sectors i n)
    → Distinct (slice 0 h.data_sectors i n)
    → (b' : Bitmap) × (deallocate_from n i h b ≡ ok b') × Released b (slice 0 h.data_sectors i n) b'
unfolding deallocate_from
deallocate_from_lem zero i h {b} v p held d =
    (b, refl, record { valid = v; num_bits = refl; bits = λ j. refl })
deallocate_from_lem (suc n) i h {b} v p held d =
    let k = get_or h.data_sectors i 0 in
    let (b', e, u) = clear_lem v k held.0.0 in
    let (b'', e', r) =
      deallocate_from_lem n (suc i) h u.valid (omega arith)
        (Held-after (slice 0 h.data_sectors (suc i) n) u d.0 held.1) d.1 in
    (
      b'',
      rw (get_elem?-eq-get_or h.data_sectors i 0 (omega arith), test-lt v k held.0.0, held.0.1, e)
          e',
      Released-cons u r,
    )

-- Deallocate, of a header whose sectors are marked and distinct, clears exactly those.
pub deallocate_lem :
    (h : FileHeader) {b : Bitmap}
    → IsValid b
    → h.num_sectors ≤ length h.data_sectors
    → All (Held b) (sectors_of h)
    → Distinct (sectors_of h)
    → (b' : Bitmap) × (deallocate h b ≡ ok b') × Released b (sectors_of h) b'
unfolding deallocate
deallocate_lem h v p held d = deallocate_from_lem h.num_sectors 0 h v (omega arith) held d
