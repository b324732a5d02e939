-- ===== src/Mtp/Fingerprints/Tests.antt =====
-- Three ranks with fingerprints of two bytes, added up entry by entry.
use tokenity.Common.{ℕ, ◌≡◌, ◌↔◌, refl, true, List, [], ◌∷◌, All, map, arith}
use tokenity.Mtp.Fingerprints.{one_hot, rank_fingerprints_match, total}
use tokenity.Mtp.Fingerprints.Agreement.{IsFingerprint, rank_fingerprints_match_iff}

abbrev over_ranks : List (List (List ℕ)) → List (List ℕ)
over_ranks [] = []
over_ranks (m ∷ ms) = total m ms

fingerprints-IsFingerprint :
    All (IsFingerprint 256 2) ((7 ∷ 255 ∷ []) ∷ (7 ∷ 255 ∷ []) ∷ (7 ∷ 254 ∷ []) ∷ [])
unfolding IsFingerprint
fingerprints-IsFingerprint = (
  (refl, (omega arith, (omega arith, tt))),
  ((refl, (omega arith, (omega arith, tt))), ((refl, (omega arith, (omega arith, tt))), tt)),
)

rank_fingerprints_match_iff_example :
    (rank_fingerprints_match 3
        (over_ranks (map (one_hot 256) ((7 ∷ 255 ∷ []) ∷ (7 ∷ 255 ∷ []) ∷ (7 ∷ 254 ∷ []) ∷ [])))
      ≡ true)
    ↔ All {A = List ℕ} (λ g. g ≡ 7 ∷ 255 ∷ []) ((7 ∷ 255 ∷ []) ∷ (7 ∷ 254 ∷ []) ∷ [])
rank_fingerprints_match_iff_example =
    rank_fingerprints_match_iff 256 over_ranks (λ n m ms h. refl) 2 (7 ∷ 255 ∷ [])
      ((7 ∷ 255 ∷ []) ∷ (7 ∷ 254 ∷ []) ∷ []) fingerprints-IsFingerprint
