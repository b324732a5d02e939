-- ===== src/Agent/Reconcile.antt =====
-- `reconcile_instance_runtime` of tokenity/node_agent/agent.py: what the agent takes over of the state
-- that a runtime on its node has published.
--
-- A key of the runtime counts where it has the type that the code asks for; versions and times are not
-- negative. The documents that are stored are arguments.
pub mod Moves
mod Tests
use tokenity.Common.{
  ℕ, Bool, true, false, if◌then◌else◌, ◌==◌, ◌&&◌, ◌||◌, not, ltb, max, contains, List, [], ◌∷◌,
  Option, none, some, or_default, String, Dict, lookup, insert, nat_eq, string_eq,
}
use tokenity.Errors.{Error, Result, ok, err}
use tokenity.Lifecycle.{
  Lifecycle, lifecycle_eq, distributed_initializing, loading_metadata, materializing_weights,
  compiling_warming, ready, failed, unloading, stopped,
}
use tokenity.Instance.{ModelInstance, Document, transition}
use tokenity.Agent.Quorum.{moved, advance_from}
use tokenity.Agent.Quorum.Reports.{is_text, is_number, is_other_revision, named_identity}

-- The runtime's state, with the error and the evidence as they are stored.
pub record Published : Type 0 where
  pub version : Option ℕ
  pub instance_id : Option String
  pub operation_id : Option String
  pub world_size : Option ℕ
  pub connection_mode : Option String
  pub model_revision : Option String
  pub status_stale : Bool
  pub updated_at : Option ℕ
  pub phase : String
  pub message : String
  pub error : Document
  pub evidence : Document
  pub tokenizer_identity : Option String

-- What is left: the instance, the versions seen, and the answer.
pub record Reconciled : Type 0 where
  pub instance_after : ModelInstance
  pub versions : Dict String ℕ
  pub applied : Bool

abbrev pub version_of : Published → ℕ
version_of r = or_default r.version 0

-- `previous_version`, where there is one
abbrev pub is_older : ℕ → Option ℕ → Bool
is_older version none = false
is_older version (some previous) = ltb version previous

-- The first check of the identity that fails, as its issue.
unfoldable pub mismatch : ModelInstance → Published → Option String
mismatch i r =
    if not (is_text r.instance_id i.instance_id)
    then some "Runtime instance_id does not match the registry."
    else if not (is_text r.operation_id i.operation_id)
    then some "Runtime operation_id does not match the registry."
    else if not (is_number r.world_size i.world_size)
    then some "Runtime world_size does not match the registry."
    else if not (is_text r.connection_mode i.connection_mode)
    then some "Runtime connection_mode does not match the registry."
    else if is_other_revision i.model_revision r.model_revision
    then some "Runtime model revision does not match the registry."
    else if r.status_stale
    then some "Runtime heartbeat is stale."
    else none

abbrev pub unhealthy : String → ℕ → ModelInstance → ModelInstance
unhealthy issue now i = record i {
  health_ready = some false;
  health_sampled_at = some now;
  health_issues = issue ∷ [];
}

abbrev pub later : Option ℕ → ℕ → ℕ
later none old = old
later (some time) old = max old time

-- `merge_runtime_clock`
unfoldable pub merge_runtime_clock : Published → ModelInstance → ModelInstance
merge_runtime_clock r i = record i {
  version = max i.version (version_of r);
  updated_at = later r.updated_at i.updated_at;
}

-- The transition to `FAILED`; an exception is passed over.
abbrev pub or_same : ModelInstance → Result (ModelInstance × ℕ) → ModelInstance
or_same i (ok (next, version)) = next
or_same i (err e) = i

unfoldable pub fail : Published → ℕ → ModelInstance → ModelInstance
fail r now i =
    let next =
      if contains i.state (failed ∷ unloading ∷ stopped ∷ [])
      then i
      else or_same i (transition failed none none (some r.error) now i) in
    unhealthy (if r.message == "" then "Runtime failed." else r.message) now next

-- The four guarded transitions.
unfoldable pub load : Document → ℕ → ModelInstance → ModelInstance × Option Error
load evidence now i = advance_from compiling_warming ready (some evidence) now (
    advance_from materializing_weights compiling_warming none now (
      advance_from loading_metadata materializing_weights none now
        (advance_from distributed_initializing loading_metadata none now (i, none))))

abbrev pub or_identity : Option String → Option String → Option String
or_identity none old = old
or_identity (some name) old = some name

abbrev pub loaded : Published → ℕ → Dict String ℕ → ModelInstance × Option Error → Reconciled
loaded r now versions (i, some e) = record {
  instance_after = merge_runtime_clock r i;
  versions = versions;
  applied = false;
}
loaded r now versions (i, none) = record {
  instance_after = merge_runtime_clock r (record i {
    tokenizer_identity = or_identity (named_identity r.tokenizer_identity) i.tokenizer_identity;
    health_ready = some true;
    health_sampled_at = some now;
    health_issues = [];
  });
  versions = versions;
  applied = true;
}

-- `role == "distributed-openai-rank" or instance.world_size == 1`
abbrev pub is_authoritative : String → ModelInstance → Bool
is_authoritative role i = role == "distributed-openai-rank" || i.world_size == 1

-- What follows the checks.
unfoldable pub apply : Published → Bool → String → ℕ → Dict String ℕ → ModelInstance → Reconciled
apply r running role now versions i =
    if r.phase == "failed"
    then record {
      instance_after = merge_runtime_clock r (fail r now i);
      versions = versions;
      applied = true;
    }
    else if r.phase == "ready" && running && is_authoritative role i
    then loaded r now versions (load r.evidence now i)
    else record { instance_after = merge_runtime_clock r i; versions = versions; applied = true }

abbrev pub unless_mismatch :
    Published → Bool → String → ℕ → Dict String ℕ → ModelInstance → Option String → Reconciled
unless_mismatch r running role now versions i (some issue) = record {
  instance_after = unhealthy issue now i;
  versions = versions;
  applied = false;
}
unless_mismatch r running role now versions i none =
    apply r running role now (insert i.instance_id (version_of r) versions) i

-- The process of the instance runs where `running`.
unfoldable pub reconcile_instance_runtime :
    Published → Bool → String → ℕ → Dict String ℕ → ModelInstance → Reconciled
reconcile_instance_runtime r running role now versions i =
    if is_older (version_of r) (lookup i.instance_id versions)
    then record { instance_after = i; versions = versions; applied = false }
    else unless_mismatch r running role now versions i (mismatch i r)
