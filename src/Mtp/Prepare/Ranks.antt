-- ===== src/Mtp/Prepare/Ranks.antt =====
-- `prepare` of tokenity/inference/native_mtp/runtime.py on all ranks at once. A call of `all_sum`
-- returns only where every rank calls it: ranks of which some ask and others do not never go on.
use tokenity.Common.{
  ℕ, zero, suc, ◌+◌, Bool, if◌then◌else◌, map, length, List, [], ◌∷◌, Option, none, some,
}
use tokenity.Mtp.Patch.{all_ranks_succeeded}
use tokenity.Mtp.Fingerprints.{one_hot, rank_fingerprints_match, total}
use tokenity.Mtp.Prepare.{Outcome, Protocol, done, match_fingerprint, match_success}

module _ (Facts : Type 0) (all_sum : List (List (List ℕ)) → List (List ℕ)) where
  -- The outcomes of ranks that are all at an end.
  unfoldable pub ended : List (Protocol Facts) → Option (List (Outcome Facts))
  ended [] = some []
  ended (done o ∷ ps) = elim (ended ps) [ none ↦ none | some os ↦ some (o ∷ os) ]
  ended (match_fingerprint f k ∷ ps) = none
  ended (match_success b k ∷ ps) = none

  -- The fingerprints of ranks that all ask for them, and how they go on.
  unfoldable pub asked :
      List (Protocol Facts) → Option (List (List ℕ) × List (Bool → Protocol Facts))
  asked [] = some ([], [])
  asked (done o ∷ ps) = none
  asked (match_fingerprint f k ∷ ps) = elim (asked ps) [
    | none ↦ none
    | some (fs, ks) ↦ some (f ∷ fs, k ∷ ks)
  ]
  asked (match_success b k ∷ ps) = none

  -- The flags of ranks that all ask whether all succeeded, each with how its rank goes on.
  unfoldable pub flagged : List (Protocol Facts) → Option (List (Bool × (Bool → Protocol Facts)))
  flagged [] = some []
  flagged (done o ∷ ps) = none
  flagged (match_fingerprint f k ∷ ps) = none
  flagged (match_success b k ∷ ps) = elim (flagged ps) [
    | none ↦ none
    | some bs ↦ some ((b, k) ∷ bs)
  ]

  abbrev pub flag_total : List (Bool × (Bool → Protocol Facts)) → ℕ
  flag_total [] = 0
  flag_total ((b, k) ∷ bs) = (if b then 1 else 0) + flag_total bs

  -- Each rank takes the sum of the fingerprints to its own answer, and likewise that of the flags.
  abbrev pub fingerprint_answer : List (List ℕ) → Bool
  fingerprint_answer fs = rank_fingerprints_match (length fs) (all_sum (map (one_hot 256) fs))

  unfoldable pub answered : Bool → List (Bool → Protocol Facts) → List (Protocol Facts)
  answered b ks = map (λ k. k b) ks

  unfoldable pub flags_answered :
      ℕ → ℕ → List (Bool × (Bool → Protocol Facts)) → List (Protocol Facts)
  flags_answered world total bs = map (λ x. x.1 (all_ranks_succeeded world total x.0)) bs

  abbrev pub go_on_flagged :
      (List (Protocol Facts) → Option (List (Outcome Facts)))
      → Option (List (Bool × (Bool → Protocol Facts)))
      → Option (List (Outcome Facts))
  go_on_flagged rest none = none
  go_on_flagged rest (some bs) = rest (flags_answered (length bs) (flag_total bs) bs)

  abbrev pub go_on_asked :
      (List (Protocol Facts) → Option (List (Outcome Facts)))
      → Option (List (List ℕ) × List (Bool → Protocol Facts))
      → Option (List (Outcome Facts))
      → Option (List (Outcome Facts))
  go_on_asked rest none other = other
  go_on_asked rest (some (fs, ks)) other = rest (answered (fingerprint_answer fs) ks)

  abbrev pub unless_ended :
      Option (List (Outcome Facts)) → Option (List (Outcome Facts)) → Option (List (Outcome Facts))
  unless_ended (some os) other = some os
  unless_ended none other = other

  -- The outcomes after so many calls of `all_sum`, or none where some rank still waits.
  unfoldable pub lockstep : ℕ → List (Protocol Facts) → Option (List (Outcome Facts))
  unfolding answered flags_answered
  lockstep zero ps = ended ps
  lockstep (suc n) ps =
      unless_ended (ended ps)
        (go_on_asked (lockstep n) (asked ps) (go_on_flagged (lockstep n) (flagged ps)))
