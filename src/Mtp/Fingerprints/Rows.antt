-- ===== src/Mtp/Fingerprints/Rows.antt =====
-- Rows of counts: their sums, their entries and their greatest entry.
use tokenity.Common.{
  ℕ, zero, suc, ◌+◌, ◌≤◌, ◌<◌, ◌≡◌, refl, ap, ◌∙◌, sym, sum, max, length, get_or, List, [], ◌∷◌,
  arith, inl, inr, ◌⊎◌,
}
use tokenity.Mtp.Fingerprints.{zeros, set_one, greatest, added_row}

sum-zeros : (k : ℕ) → sum (zeros k) ≡ 0
sum-zeros zero = refl
sum-zeros (suc k) = omega (arith, sum-zeros k)

pub length-set_one : (v k : ℕ) → length (set_one v (zeros k)) ≡ k
length-set_one v zero = refl
length-set_one zero (suc k) = ap suc (length-zeros k)
  where
    length-zeros : (k : ℕ) → length (zeros k) ≡ k
    length-zeros zero = refl
    length-zeros (suc k) = ap suc (length-zeros k)
length-set_one (suc v) (suc k) = ap suc (length-set_one v k)

pub sum-set_one : (v k : ℕ) → v < k → sum (set_one v (zeros k)) ≡ 1
sum-set_one v zero h = absurd (omega arith)
sum-set_one zero (suc k) h = omega (arith, sum-zeros k)
sum-set_one (suc v) (suc k) h = omega (arith, sum-set_one v k (omega arith))

pub get_or-set_one : (v k : ℕ) → v < k → get_or (set_one v (zeros k)) v 0 ≡ 1
get_or-set_one v zero h = absurd (omega arith)
get_or-set_one zero (suc k) h = refl
get_or-set_one (suc v) (suc k) h = get_or-set_one v k (omega arith)

get_or-zeros : (k j : ℕ) → get_or (zeros k) j 0 ≡ 0
get_or-zeros zero j = refl
get_or-zeros (suc k) zero = refl
get_or-zeros (suc k) (suc j) = get_or-zeros k j

-- The only entry that is not 0.
pub set_one_only : (v k j : ℕ) → get_or (set_one v (zeros k)) j 0 ≡ 1 → v ≡ j
set_one_only v zero j h = absurd (omega (arith, h))
set_one_only zero (suc k) zero h = refl
set_one_only zero (suc k) (suc j) h = absurd (omega (arith, h, get_or-zeros k j))
set_one_only (suc v) (suc k) zero h = absurd (omega (arith, h))
set_one_only (suc v) (suc k) (suc j) h = ap suc (set_one_only v k j h)

pub length-added_row : (r s : List ℕ) → length r ≡ length s → length (added_row r s) ≡ length s
length-added_row [] [] h = refl
length-added_row [] (y ∷ s) h = absurd (omega (arith, h))
length-added_row (x ∷ r) [] h = absurd (omega (arith, h))
length-added_row (x ∷ r) (y ∷ s) h = ap suc (length-added_row r s (omega arith))

pub sum-added_row : (r s : List ℕ) → length r ≡ length s → sum (added_row r s) ≡ sum r + sum s
sum-added_row [] [] h = refl
sum-added_row [] (y ∷ s) h = absurd (omega (arith, h))
sum-added_row (x ∷ r) [] h = absurd (omega (arith, h))
sum-added_row (x ∷ r) (y ∷ s) h = omega (arith, sum-added_row r s (omega arith))

pub get_or-added_row :
    (r s : List ℕ) (j : ℕ)
    → length r ≡ length s
    → get_or (added_row r s) j 0 ≡ get_or r j 0 + get_or s j 0
get_or-added_row [] [] j h = refl
get_or-added_row [] (y ∷ s) j h = absurd (omega (arith, h))
get_or-added_row (x ∷ r) [] j h = absurd (omega (arith, h))
get_or-added_row (x ∷ r) (y ∷ s) zero h = refl
get_or-added_row (x ∷ r) (y ∷ s) (suc j) h = get_or-added_row r s j (omega arith)

pub get_or-le-sum : (r : List ℕ) (j : ℕ) → get_or r j 0 ≤ sum r
get_or-le-sum [] j = omega arith
get_or-le-sum (x ∷ r) zero = omega arith
get_or-le-sum (x ∷ r) (suc j) = omega (arith, get_or-le-sum r j)

pub get_or-le-greatest : (r : List ℕ) (j : ℕ) → get_or r j 0 ≤ greatest r
get_or-le-greatest [] j = omega arith
get_or-le-greatest (x ∷ r) zero = omega arith
get_or-le-greatest (x ∷ r) (suc j) = omega (arith, get_or-le-greatest r j)

pub greatest-le-sum : (r : List ℕ) → greatest r ≤ sum r
greatest-le-sum [] = omega arith
greatest-le-sum (x ∷ r) = omega (arith, greatest-le-sum r)

-- The place of the greatest entry.
pub greatest_place : (r : List ℕ) → (j : ℕ) × (get_or r j 0 ≡ greatest r)
greatest_place [] = (0, refl)
greatest_place (x ∷ r) = elim (larger x (greatest r)) [
  | inl h ↦ (0, sym h)
  | inr h ↦ let (j, e) = greatest_place r in (suc j, e ∙ sym h)
]
  where
    larger : (a b : ℕ) → (max a b ≡ a) ⊎ (max a b ≡ b)
    larger a b = ground arith
