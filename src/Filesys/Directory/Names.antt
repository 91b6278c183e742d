-- ===== src/Filesys/Directory/Names.antt =====
-- Names as the directory compares them: strncmp is an equivalence, and strncpy keeps the name.
use nach_os.Base.{ℕ, zero, suc, ◌≤◌, ◌≡◌, refl, true, List, [], ◌∷◌, length, arith}
use nach_os.Filesys.Directory.{same_name, strncpy}

pub same_name_refl : (n : ℕ) (s : List ℕ) → same_name n s s ≡ true
unfolding same_name
same_name_refl zero s = refl
same_name_refl (suc n) [] = refl
same_name_refl (suc n) (x ∷ s) = ground (arith, same_name_refl n s)

pub same_name_comm : (n : ℕ) (s t : List ℕ) → same_name n s t ≡ same_name n t s
unfolding same_name
same_name_comm zero s t = refl
same_name_comm (suc n) [] [] = refl
same_name_comm (suc n) [] (y ∷ t) = refl
same_name_comm (suc n) (x ∷ s) [] = refl
same_name_comm (suc n) (x ∷ s) (y ∷ t) = ground (arith, same_name_comm n s t)

pub same_name_congr :
    (n : ℕ) (s t u : List ℕ) → same_name n s t ≡ true → same_name n s u ≡ same_name n t u
unfolding same_name
same_name_congr zero s t u h = refl
same_name_congr (suc n) [] [] u h = refl
same_name_congr (suc n) [] (y ∷ t) [] h = ground arith
same_name_congr (suc n) [] (y ∷ t) (z ∷ u) h = ground arith
same_name_congr (suc n) (x ∷ s) [] [] h = ground arith
same_name_congr (suc n) (x ∷ s) [] (z ∷ u) h = ground arith
same_name_congr (suc n) (x ∷ s) (y ∷ t) [] h = ground arith
same_name_congr (suc n) (x ∷ s) (y ∷ t) (z ∷ u) h = ground (arith, same_name_congr n s t u)

-- A copied name compares as the name does.
pub same_name-strncpy :
    (n : ℕ) (s target t : List ℕ)
    → n ≤ length target
    → same_name n (strncpy n s target) t ≡ same_name n s t
unfolding same_name strncpy
same_name-strncpy zero s target t h = refl
same_name-strncpy (suc n) s [] t h = absurd (omega arith)
same_name-strncpy (suc n) [] (b ∷ target) [] h = refl
same_name-strncpy (suc n) [] (b ∷ target) (y ∷ t) h = ground arith
same_name-strncpy (suc n) (x ∷ s) (b ∷ target) [] h = refl
same_name-strncpy (suc n) (x ∷ s) (b ∷ target) (y ∷ t) h =
    ground (arith, same_name-strncpy n s target t)
