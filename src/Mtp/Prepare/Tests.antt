-- ===== src/Mtp/Prepare/Tests.antt =====
-- Two ranks with the same decision, of which one has a supported mlx-lm, and the same two ranks where
-- both have it.
use tokenity.Common.{
  ℕ, ◌≡◌, refl, true, false, List, [], ◌∷◌, All, map, none, some, arith, if◌then◌else◌,
}
use tokenity.Mtp.Fingerprints.{one_hot, rank_fingerprints_match, is_unanimous, total}
use tokenity.Mtp.Fingerprints.Agreement.{IsFingerprint}
use tokenity.Mtp.Patch.{all_ranks_succeeded}
use tokenity.Mtp.Prepare.{
  Decision, Controller, patched, prepare, after_match, after_second_match, after_install,
}
use tokenity.Mtp.Prepare.Ranks.{ended, asked, flagged, answered, flags_answered, lockstep}
use tokenity.Mtp.Prepare.Stuck.{IsReady, lockstep-prepare}

abbrev over_ranks : List (List (List ℕ)) → List (List ℕ)
over_ranks [] = []
over_ranks (m ∷ ms) = total m ms

-- A fingerprint of one byte.
abbrev fingerprint : Decision ℕ → List ℕ
fingerprint d = (if d.enabled then 9 else 5) ∷ []

abbrev decision : Decision ℕ
decision = record {
  requested_mode = "auto";
  enabled = true;
  status = "supported";
  reason = none;
  facts = 3;
}

abbrev current : Controller ℕ
current = record {
  mode = "auto";
  decision = decision;
  decode_concurrency = 1;
  pipeline_parallel = false;
  supported = true;
  installs = true;
}

abbrev outdated : Controller ℕ
outdated = record current { supported = false }

two-IsReady : All (IsReady ℕ over_ranks fingerprint (λ f. f)) (current ∷ outdated ∷ [])
unfolding IsReady
two-IsReady = ((refl, refl, refl), ((refl, refl, refl), tt))

two-IsFingerprint : All (IsFingerprint 256 1) ((9 ∷ []) ∷ (9 ∷ []) ∷ [])
unfolding IsFingerprint
two-IsFingerprint = ((refl, (omega arith, tt)), ((refl, (omega arith, tt)), tt))

lockstep-prepare_example :
    lockstep ℕ over_ranks 5 (map (prepare ℕ fingerprint (λ f. f)) (current ∷ outdated ∷ [])) ≡ none
lockstep-prepare_example =
    lockstep-prepare ℕ over_ranks fingerprint (λ f. f) (λ n m ms h. refl) 1 5 current
      (outdated ∷ []) two-IsReady refl refl two-IsFingerprint (refl, tt)

both_patched :
    lockstep ℕ over_ranks 3 (map (prepare ℕ fingerprint (λ f. f)) (current ∷ current ∷ []))
    ≡ some (patched decision ∷ patched decision ∷ [])
unfolding lockstep ended asked flagged answered flags_answered prepare after_match
    after_second_match after_install rank_fingerprints_match is_unanimous one_hot
    all_ranks_succeeded
both_patched = refl
