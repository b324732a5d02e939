-- ===== src/Mtp/Fingerprints.antt =====
-- `_rank_fingerprints_match` of tokenity/inference/native_mtp/runtime.py: each rank adds its
-- fingerprint, byte by byte as a row with one 1, and looks whether the sums all lie in one place.
pub mod Rows
pub mod Agreement
mod Tests
use tokenity.Common.{
  ℕ, zero, suc, ◌+◌, ◌≡◌, Bool, true, false, if◌then◌else◌, ◌&&◌, leb, nat_beq, sum, all, map, max,
  length, List, [], ◌∷◌, All,
}

abbrev pub zeros : ℕ → List ℕ
zeros zero = []
zeros (suc n) = 0 ∷ zeros n

-- `row[value] = 1`
abbrev pub set_one : ℕ → List ℕ → List ℕ
set_one v [] = []
set_one zero (x ∷ xs) = 1 ∷ xs
set_one (suc v) (x ∷ xs) = x ∷ set_one v xs

-- `one_hot`, with rows of so many entries
unfoldable pub one_hot : ℕ → List ℕ → List (List ℕ)
one_hot width raw = map (λ value. set_one value (zeros width)) raw

-- `max(row)`
abbrev pub greatest : List ℕ → ℕ
greatest [] = 0
greatest (x ∷ xs) = max x (greatest xs)

unfoldable pub is_unanimous : ℕ → List ℕ → Bool
is_unanimous world_size row = nat_beq (sum row) world_size && nat_beq (greatest row) world_size

-- `_rank_fingerprints_match`, from the rows that were added up over the ranks
unfoldable pub rank_fingerprints_match : ℕ → List (List ℕ) → Bool
unfolding is_unanimous
rank_fingerprints_match world_size rows =
    if leb world_size 1 then true else all (λ row. is_unanimous world_size row) rows

-- What `all_sum` computes on arrays of one shape.
abbrev pub added_row : List ℕ → List ℕ → List ℕ
added_row (x ∷ xs) (y ∷ ys) = (x + y) ∷ added_row xs ys
added_row _ _ = []

abbrev pub added : List (List ℕ) → List (List ℕ) → List (List ℕ)
added (r ∷ rs) (s ∷ ss) = added_row r s ∷ added rs ss
added _ _ = []

abbrev pub total : List (List ℕ) → List (List (List ℕ)) → List (List ℕ)
total m [] = m
total m (n ∷ ms) = added m (total n ms)
