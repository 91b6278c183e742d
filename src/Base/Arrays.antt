-- ===== src/Base/Arrays.antt =====
-- Stretches of an array: reading one, and writing one element after another.
use Prim.Native.Nat.{ℕ, zero, suc, ◌+◌, ◌-◌, ◌≤◌, ◌<◌}
use mathlib.Core.Path.{◌≡◌, refl, sym, subst, ap, ap₂, ◌∙◌}
use mathlib.Core.Logic.{◌≢◌}
use mathlib.Core.Bool.{Bool, true, false, ◌||◌}
use mathlib.Core.List.{List, [], ◌∷◌}
use native.Mathlib.Omega.{arith}
use native.Mathlib.Decide.{ℕ_discrete}
use nach_os.Base.Lists.{length, get_or, set, get_or-set_self, get_or-set_ne, length-set}
use nach_os.Base.Tests.{◌==◌}

-- xs[i], .., xs[i + n - 1]
abbrev pub slice {ℓ} : {A : Type ℓ} → A → List A → ℕ → ℕ → List A
slice d xs i zero = []
slice d xs i (suc n) = get_or xs i d ∷ slice d xs (suc i) n

-- xs[i] = v0; xs[i + 1] = v1; ..
abbrev pub overwrite {ℓ} : {A : Type ℓ} → List A → ℕ → List A → List A
overwrite xs i [] = xs
overwrite xs i (v ∷ vs) = overwrite (set xs i v) (suc i) vs

module _ {ℓ} {A : Type ℓ} where
  pub length-overwrite :
      (xs : List A) (i : ℕ) (vs : List A) → length (overwrite xs i vs) ≡ length xs
  length-overwrite xs i [] = refl
  length-overwrite xs i (v ∷ vs) = length-overwrite (set xs i v) (suc i) vs ∙ length-set xs i v

  pub get_or-overwrite_below :
      (xs : List A) (i : ℕ) (vs : List A) (j : ℕ) (d : A)
      → j < i
      → get_or (overwrite xs i vs) j d ≡ get_or xs j d
  get_or-overwrite_below xs i [] j d h = refl
  get_or-overwrite_below xs i (v ∷ vs) j d h =
      get_or-overwrite_below (set xs i v) (suc i) vs j d (omega arith)
      ∙ get_or-set_ne xs i j v d (omega arith)

  pub slice-overwrite :
      (xs : List A) (i : ℕ) (vs : List A) (d : A)
      → i + length vs ≤ length xs
      → slice d (overwrite xs i vs) i (length vs) ≡ vs
  slice-overwrite xs i [] d h = refl
  slice-overwrite xs i (v ∷ vs) d h =
      ap₂ ◌∷◌
        (get_or-overwrite_below (set xs i v) (suc i) vs i d (omega arith)
          ∙ get_or-set_self xs i v d (omega arith))
        (slice-overwrite (set xs i v) (suc i) vs d (omega (arith, length-set xs i v)))

  pub slice-shift :
      (x : A) (xs : List A) (i n : ℕ) (d : A) → slice d (x ∷ xs) (suc i) n ≡ slice d xs i n
  slice-shift x xs i zero d = refl
  slice-shift x xs i (suc n) d = ap (◌∷◌ (get_or xs i d)) (slice-shift x xs (suc i) n d)

  pub slice_self : (xs : List A) (d : A) → slice d xs 0 (length xs) ≡ xs
  slice_self [] d = refl
  slice_self (x ∷ xs) d = ap (◌∷◌ x) (slice-shift x xs 0 (length xs) d ∙ slice_self xs d)

  -- As many elements as the array has replace it.
  pub overwrite-all : (xs vs : List A) (d : A) → length vs ≡ length xs → overwrite xs 0 vs ≡ vs
  overwrite-all xs vs d h =
      sym (slice_self (overwrite xs 0 vs) d)
      ∙ ap (slice d (overwrite xs 0 vs) 0) (length-overwrite xs 0 vs ∙ sym h)
      ∙ slice-overwrite xs 0 vs d (omega arith)

  pub length-slice : (xs : List A) (i n : ℕ) (d : A) → length (slice d xs i n) ≡ n
  length-slice xs i zero d = refl
  length-slice xs i (suc n) d = ap suc (length-slice xs (suc i) n d)

-- A predicate of every element, and an array of distinct numbers.
abbrev pub All {ℓ κ} : {A : Type ℓ} → (A → Type κ) → List A → Type κ
All P [] = Unit
All P (x ∷ xs) = P x × All P xs

abbrev pub contains : List ℕ → ℕ → Bool
contains [] k = false
contains (x ∷ xs) k = x == k || contains xs k

abbrev pub Distinct : List ℕ → Type 0
Distinct [] = Unit {0}
Distinct (x ∷ xs) = (contains xs x ≡ false) × Distinct xs

pub All-map {ℓ κ μ} :
    {A : Type ℓ} (P : A → Type κ) (Q : A → Type μ) (xs : List A)
    → ((x : A) → P x → Q x)
    → All P xs
    → All Q xs
All-map P Q [] f h = tt
All-map P Q (x ∷ xs) f h = (f x h.0, All-map P Q xs f h.1)

-- An element that is in no list whose elements all differ from it.
pub contains_of_All_ne : (xs : List ℕ) (k : ℕ) → All (λ x. x ≢ k) xs → contains xs k ≡ false
contains_of_All_ne [] k h = refl
contains_of_All_ne (x ∷ xs) k h = ground (arith, contains_of_All_ne xs k h.1)

pub All-contains {κ} :
    (P : ℕ → Type κ) (xs : List ℕ) (k : ℕ) → All P xs → contains xs k ≡ true → P k
All-contains P [] k h c = cc
All-contains P (x ∷ xs) k h c = elim (ℕ_discrete x k) [
  | yes e ↦ rw (← e) h.0
  | no e ↦ All-contains P xs k h.1 (ground arith)
]

-- f i, f (i + 1), .., f (i + n - 1)
abbrev pub tabulate {ℓ} : {A : Type ℓ} → (ℕ → A) → ℕ → ℕ → List A
tabulate f i zero = []
tabulate f i (suc n) = f i ∷ tabulate f (suc i) n

module _ {ℓ} {A : Type ℓ} where
  pub length-tabulate : (f : ℕ → A) (i n : ℕ) → length (tabulate f i n) ≡ n
  length-tabulate f i zero = refl
  length-tabulate f i (suc n) = ap suc (length-tabulate f (suc i) n)

  pub get_or-tabulate :
      (f : ℕ → A) (i n k : ℕ) (d : A) → k < n → get_or (tabulate f i n) k d ≡ f (i + k)
  get_or-tabulate f i zero k d h = absurd (omega arith)
  get_or-tabulate f i (suc n) zero d h = ap f (omega arith)
  get_or-tabulate f i (suc n) (suc k) d h =
      get_or-tabulate f (suc i) n k d (omega arith) ∙ ap f (omega arith)

  pub slice-tabulate :
      (f : ℕ → A) (xs : List A) (i j n : ℕ) (d : A)
      → ((k : ℕ) → k < n → get_or xs (i + k) d ≡ f (j + k))
      → slice d xs i n ≡ tabulate f j n
  slice-tabulate f xs i j zero d h = refl
  slice-tabulate f xs i j (suc n) d h =
      ap₂ ◌∷◌ (ap (λ t. get_or xs t d) (omega arith) ∙ h 0 (omega arith) ∙ ap f (omega arith)) (
        slice-tabulate f xs (suc i) (suc j) n d λ k l.
          ap (λ t. get_or xs t d) (omega arith) ∙ h (suc k) (omega arith) ∙ ap f (omega arith))

  pub tabulate-get_or :
      (f : ℕ → A) (xs : List A) (i : ℕ) (d : A)
      → ((k : ℕ) → k < length xs → f (i + k) ≡ get_or xs k d)
      → tabulate f i (length xs) ≡ xs
  tabulate-get_or f [] i d h = refl
  tabulate-get_or f (x ∷ xs) i d h =
      ap₂ ◌∷◌ (ap f (let z : i ≡ i + 0 = omega arith in z) ∙ h 0 (omega arith))
        (tabulate-get_or f xs (suc i) d λ k l. ap f (omega arith) ∙ h (suc k) (omega arith))

  pub get_or-slice :
      (xs : List A) (i n k : ℕ) (d : A) → k < n → get_or (slice d xs i n) k d ≡ get_or xs (i + k) d
  get_or-slice xs i zero k d h = absurd (omega arith)
  get_or-slice xs i (suc n) zero d h = ap (λ t. get_or xs t d) (omega arith)
  get_or-slice xs i (suc n) (suc k) d h =
      get_or-slice xs (suc i) n k d (omega arith) ∙ ap (λ t. get_or xs t d) (omega arith)

  pub get_or-overwrite_in :
      (xs : List A) (i : ℕ) (vs : List A) (j : ℕ) (d : A)
      → i + length vs ≤ length xs
      → i ≤ j
      → j < i + length vs
      → get_or (overwrite xs i vs) j d ≡ get_or vs (j - i) d
  get_or-overwrite_in xs i [] j d h p q = absurd (omega arith)
  get_or-overwrite_in xs i (v ∷ vs) j d h p q = elim (ℕ_discrete i j) [
    | yes e ↦
        get_or-overwrite_below (set xs i v) (suc i) vs j d (omega arith)
        ∙ rw (← e) (get_or-set_self xs i v d (omega arith))
        ∙ ap (λ t. get_or (v ∷ vs) t d) (let z : 0 ≡ j - i = omega arith in z)
    | no e ↦
        get_or-overwrite_in (set xs i v) (suc i) vs j d (omega (arith, length-set xs i v))
          (omega arith) (omega arith)
        ∙ ap (λ t. get_or (v ∷ vs) t d) (let z : suc (j - suc i) ≡ j - i = omega arith in z)
  ]

  pub get_or-overwrite_above :
      (xs : List A) (i : ℕ) (vs : List A) (j : ℕ) (d : A)
      → i + length vs ≤ j
      → get_or (overwrite xs i vs) j d ≡ get_or xs j d
  get_or-overwrite_above xs i [] j d h = refl
  get_or-overwrite_above xs i (v ∷ vs) j d h =
      get_or-overwrite_above (set xs i v) (suc i) vs j d (omega arith)
      ∙ get_or-set_ne xs i j v d (omega arith)

pub All-of_get_or :
    {A : Type 0} (P : A → Type 0) (xs : List A) (d : A)
    → ((k : ℕ) → k < length xs → P (get_or xs k d))
    → All P xs
All-of_get_or P [] d h = tt
All-of_get_or P (x ∷ xs) d h =
    (h 0 (omega arith), All-of_get_or P xs d (λ k l. h (suc k) (omega arith)))

pub All-set {ℓ κ} :
    {A : Type ℓ} (P : A → Type κ) (xs : List A) (i : ℕ) (v : A)
    → P v
    → All P xs
    → All P (set xs i v)
All-set P [] i v p h = tt
All-set P (x ∷ xs) zero v p h = (p, h.1)
All-set P (x ∷ xs) (suc i) v p h = (h.0, All-set P xs i v p h.1)

pub All-overwrite {ℓ κ} :
    {A : Type ℓ} (P : A → Type κ) (xs : List A) (i : ℕ) (vs : List A)
    → All P vs
    → All P xs
    → All P (overwrite xs i vs)
All-overwrite P xs i [] p h = h
All-overwrite P xs i (v ∷ vs) p h =
    All-overwrite P (set xs i v) (suc i) vs p.1 (All-set P xs i v p.0 h)

-- A stretch of an array by its indices.
pub All-slice {ℓ κ} :
    {A : Type ℓ} (P : A → Type κ) (xs : List A) (i n j : ℕ) (d : A)
    → All P (slice d xs i n)
    → j < n
    → P (get_or xs (i + j) d)
All-slice P xs i zero j d h l = absurd (omega arith)
All-slice P xs i (suc n) zero d h l =
    subst (λ t. P (get_or xs t d)) (let z : i ≡ i + 0 = omega arith in z) h.0
All-slice P xs i (suc n) (suc j) d h l =
    subst (λ t. P (get_or xs t d)) (let z : suc i + j ≡ i + suc j = omega arith in z)
      (All-slice P xs (suc i) n j d h.1 (omega arith))

pub contains-slice :
    (xs : List ℕ) (i n j : ℕ) → j < n → contains (slice 0 xs i n) (get_or xs (i + j) 0) ≡ true
contains-slice xs i zero j l = absurd (omega arith)
contains-slice xs i (suc n) zero l =
    let z : i ≡ i + 0 = omega arith in
    subst (λ t. contains (slice 0 xs i (suc n)) (get_or xs t 0) ≡ true) z (ground arith)
contains-slice xs i (suc n) (suc j) l =
    let z : suc i + j ≡ i + suc j = omega arith in
    subst (λ t. contains (slice 0 xs i (suc n)) (get_or xs t 0) ≡ true) z
      (ground (arith, contains-slice xs (suc i) n j))

head_apart :
    (xs : List ℕ) (i n k : ℕ)
    → k < n
    → contains (slice 0 xs (suc i) n) (get_or xs i 0) ≡ false
    → get_or xs (i + 0) 0 ≡ get_or xs (i + suc k) 0
    → ⊥
head_apart xs i n k l h e =
    let a : i + 0 ≡ i = omega arith in
    let b : suc i + k ≡ i + suc k = omega arith in
    let same : get_or xs (suc i + k) 0 ≡ get_or xs i 0 =
      ap (λ t. get_or xs t 0) b ∙ sym e ∙ ap (λ t. get_or xs t 0) a in
    let found : contains (slice 0 xs (suc i) n) (get_or xs i 0) ≡ true =
      subst (λ t. contains (slice 0 xs (suc i) n) t ≡ true) same
        (contains-slice xs (suc i) n k l) in
    cc

pub Distinct-slice :
    (xs : List ℕ) (i n j k : ℕ)
    → Distinct (slice 0 xs i n)
    → j < n
    → k < n
    → get_or xs (i + j) 0 ≡ get_or xs (i + k) 0
    → j ≡ k
Distinct-slice xs i zero j k h p q e = absurd (omega arith)
Distinct-slice xs i (suc n) zero zero h p q e = refl
Distinct-slice xs i (suc n) zero (suc k) h p q e = absurd (head_apart xs i n k (omega arith) h.0 e)
Distinct-slice xs i (suc n) (suc j) zero h p q e =
    absurd (head_apart xs i n j (omega arith) h.0 (sym e))
Distinct-slice xs i (suc n) (suc j) (suc k) h p q e =
    let a : suc i + j ≡ i + suc j = omega arith in
    let b : suc i + k ≡ i + suc k = omega arith in
    ap suc (
      Distinct-slice xs (suc i) n j k h.1 (omega arith) (omega arith)
        (ap (λ t. get_or xs t 0) a ∙ e ∙ ap (λ t. get_or xs t 0) (sym b)))
