-- ===== src/Mtp/Prepare.antt =====
-- `prepare` of tokenity/inference/native_mtp/runtime.py as what a rank asks of the others: each call
-- of `all_sum` is a question, and what follows depends on its answer.
--
-- The fingerprint, a SHA-256 of the decision's fields, and its second form are arguments; the fields
-- that `prepare` only passes on are one argument `Facts`. Messages and telemetry are left out.
pub mod Ranks
pub mod Stuck
mod Tests
use tokenity.Common.{
  ℕ, ◌≡◌, Bool, true, false, if◌then◌else◌, ◌&&◌, ◌||◌, not, nat_beq, ◌==◌, string_eq, String, List,
  [], ◌∷◌, Option, none, some, or_default,
}

-- The reasons of tokenity/inference/native_mtp/detector.py.
pub data Reason : Type 0 where
  disabled_by_user unsupported_backend unsupported_model_type model_does_not_declare
        missing_weights :
      Reason
  incomplete_weights unsupported_decode_concurrency unsupported_topology unsupported_runtime :
      Reason
  rank_mismatch patch_install_failed loaded_instance_invalid seeded_sequential_path : Reason

abbrev pub is_rank_mismatch : Reason → Bool
is_rank_mismatch rank_mismatch = true
is_rank_mismatch _ = false

module _ (Facts : Type 0) where
  -- `NativeMTPDecision`
  pub record Decision : Type 0 where
    pub requested_mode : String
    pub enabled : Bool
    pub status : String
    pub reason : Option Reason
    pub facts : Facts

  -- `required_failure`
  unfoldable pub required_failure : Decision → Bool
  required_failure d = d.requested_mode == "required" && not d.enabled

  -- `with_fallback`
  unfoldable pub with_fallback : Reason → Decision → Decision
  with_fallback r d = record d {
    enabled = false;
    status = if is_rank_mismatch r then "node_mismatch" else d.status;
    reason = some r;
  }

  -- `NativeMTPRuntimeController`, as it is before `prepare`; `supported` is what
  -- `runtime_shape_supported` finds, and `installs` whether the patches end without an error.
  pub record Controller : Type 0 where
    pub mode : String
    pub decision : Decision
    pub decode_concurrency : ℕ
    pub pipeline_parallel : Bool
    pub supported : Bool
    pub installs : Bool

  -- How `prepare` ends: with a decision, without or with the patches, or with
  -- `NativeMTPStartupError`.
  pub data Outcome : Type 0 where
    standard patched : Decision → Outcome
    raised : Reason → Outcome

  pub data Protocol : Type 0 where
    done : Outcome → Protocol
    match_fingerprint : List ℕ → (Bool → Protocol) → Protocol
    match_success : Bool → (Bool → Protocol) → Protocol

  -- `_fallback_or_raise`
  unfoldable pub fallback_or_raise : Reason → Controller → Outcome
  fallback_or_raise r c =
      if c.mode == "required" then raised r else standard (with_fallback r c.decision)

  module _ (fingerprint : Decision → List ℕ) (runtime_ok : List ℕ → List ℕ) where
    -- After all ranks have answered whether their patches are in.
    unfoldable pub after_install : Controller → Bool → Protocol
    after_install c all_succeeded =
        if not c.installs || not all_succeeded
        then done (raised patch_install_failed)
        else done (patched c.decision)

    unfoldable pub after_second_match : Controller → Bool → Protocol
    unfolding after_install
    after_second_match c matched =
        if not matched
        then done (fallback_or_raise rank_mismatch c)
        else match_success c.installs (after_install c)

    -- Between the first answer and the second question.
    unfoldable pub after_match : Controller → Bool → Protocol
    unfolding after_second_match
    after_match c matched =
        if not matched
        then done (fallback_or_raise rank_mismatch c)
        else if not c.decision.enabled
        then (if required_failure c.decision
            then done (raised (or_default c.decision.reason unsupported_runtime))
            else done (standard c.decision))
        else if not (nat_beq c.decode_concurrency 1)
        then done (fallback_or_raise unsupported_decode_concurrency c)
        else if c.pipeline_parallel
        then done (fallback_or_raise unsupported_topology c)
        else if not c.supported
        then done (fallback_or_raise unsupported_runtime c)
        else match_fingerprint (runtime_ok (fingerprint c.decision)) (after_second_match c)

    -- `prepare`
    unfoldable pub prepare : Controller → Protocol
    unfolding after_match
    prepare c = match_fingerprint (fingerprint c.decision) (after_match c)
