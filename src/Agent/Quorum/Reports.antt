-- ===== src/Agent/Quorum/Reports.antt =====
-- What a rank reports to `instance_quorum` of tokenity/node_agent/agent.py, and what is wrong with it.
use tokenity.Common.{
  ℕ, Bool, true, false, if◌then◌else◌, ◌==◌, ◌&&◌, not, contains, is_none, ◌≡◌, ◌↔◌, List, [], ◌∷◌,
  ◌++◌, Option, none, some, String, ℤ, pos, negsuc, nat_eq, string_eq, Eq, nat_beq, arith,
}
use tokenity.Errors.{Error}
use tokenity.Instance.{ModelInstance}

-- `ready_evidence`; a key counts where its value is `True`.
pub record Evidence : Type 0 where
  pub weights_materialized : Bool
  pub tokenizer_ready : Bool
  pub generation_engine_ready : Bool
  pub one_token_probe : Bool
  pub warmup_cache_isolated : Bool

-- `memory`; a number counts where it is an integer.
pub record Observation : Type 0 where
  pub stale : Bool
  pub model_resident_observed_bytes : Option ℕ
  pub mlx_active_bytes : Option ℕ

-- `runtime`
pub record Runtime : Type 0 where
  pub instance_id : Option String
  pub operation_id : Option String
  pub phase : Option String
  pub status_stale : Bool
  pub memory : Option Observation
  pub world_size : Option ℕ
  pub connection_mode : Option String
  pub model_revision : Option String
  pub tokenizer_identity : Option String
  pub ready_evidence : Option Evidence
  pub rank : Option ℤ

-- One entry of `ranks`. There is no resource issue where the text is empty; the process runs where
-- its state says so.
pub record Report : Type 0 where
  pub node : String
  pub resource_issue : String
  pub runtime : Option Runtime
  pub process_running : Bool

pub data Issue : Type 0 where
  resource_refused : String → String → Issue
  runtime_unavailable instance_mismatch operation_mismatch phase_mismatch heartbeat_stale :
      String → Issue
  world_size_mismatch connection_mismatch revision_mismatch : String → Issue
  tokenizer_unavailable evidence_unavailable process_not_running : String → Issue
  evidence_not_true : String → String → Issue
  duplicate_rank : String → ℤ → Issue
  rank_quorum_mismatch tokenizer_mismatch no_probe : Issue
  transition_failed : Error → Issue

abbrev pub issue_if : Bool → Issue → List Issue
issue_if true issue = issue ∷ []
issue_if false issue = []

abbrev rank_beq : ℤ → ℤ → Bool
rank_beq (pos a) (pos b) = nat_beq a b
rank_beq (negsuc a) (negsuc b) = nat_beq a b
rank_beq _ _ = false

pub rank_beq_iff : (a b : ℤ) → (rank_beq a b ≡ true) ↔ (a ≡ b)
rank_beq_iff a b = ground arith

instance abbrev pub rank_eq : Eq ℤ
rank_eq = record { equal = rank_beq; equal_iff = rank_beq_iff }

-- `value == expected`, where the value may be missing.
abbrev pub is_text : Option String → String → Bool
is_text none expected = false
is_text (some text) expected = text == expected

abbrev pub is_number : Option ℕ → ℕ → Bool
is_number none expected = false
is_number (some n) expected = n == expected

-- `phase in {"ready", "prefill_pending", "generating"}`
abbrev pub is_serving_phase : Option String → Bool
is_serving_phase none = false
is_serving_phase (some phase) = contains phase ("ready" ∷ "prefill_pending" ∷ "generating" ∷ [])

-- `instance.model_revision and runtime.get("model_revision") != instance.model_revision`
abbrev pub is_other_revision : Option String → Option String → Bool
is_other_revision none reported = false
is_other_revision (some revision) reported = not (revision == "") && not (is_text reported revision)

-- The identity, where it is a text that is not empty.
abbrev pub named_identity : Option String → Option String
named_identity none = none
named_identity (some name) = if name == "" then none else some name

-- One list after the other.
abbrev pub joined : List (List Issue) → List Issue
joined [] = []
joined (xs ∷ xss) = xs ++ joined xss

abbrev pub evidence_issues : String → Option Evidence → List Issue
evidence_issues node none = evidence_unavailable node ∷ []
evidence_issues node (some e) = joined (
    issue_if (not e.weights_materialized) (evidence_not_true node "weights_materialized")
    ∷ issue_if (not e.tokenizer_ready) (evidence_not_true node "tokenizer_ready")
    ∷ issue_if (not e.generation_engine_ready) (evidence_not_true node "generation_engine_ready")
    ∷ [])

abbrev pub rank_issues : String → List ℤ → Option ℤ → List Issue
rank_issues node seen none = []
rank_issues node seen (some rank) = issue_if (contains rank seen) (duplicate_rank node rank)

-- `rank0_probe_succeeded`, where this rank sets it.
abbrev pub probe_of : Option ℤ → Option Evidence → Option Bool
probe_of (some rank) (some e) =
    if rank == pos 0 then some (e.one_token_probe && e.warmup_cache_isolated) else none
probe_of _ _ = none

abbrev pub observed_bytes : Option Observation → Option ℕ
observed_bytes none = none
observed_bytes (some m) =
    if is_none m.model_resident_observed_bytes
    then m.mlx_active_bytes
    else m.model_resident_observed_bytes

abbrev pub is_stale_memory : Option Observation → Bool
is_stale_memory none = false
is_stale_memory (some m) = m.stale

-- The issues of a runtime, in the code's order.
abbrev pub runtime_checks : ModelInstance → List ℤ → String → Runtime → List (List Issue)
runtime_checks i seen node r =
    issue_if (not (is_text r.instance_id i.instance_id)) (instance_mismatch node)
    ∷ issue_if (not (is_text r.operation_id i.operation_id)) (operation_mismatch node)
    ∷ issue_if (not (is_serving_phase r.phase)) (phase_mismatch node)
    ∷ issue_if r.status_stale (heartbeat_stale node)
    ∷ issue_if (not (is_number r.world_size i.world_size)) (world_size_mismatch node)
    ∷ issue_if (not (is_text r.connection_mode i.connection_mode)) (connection_mismatch node)
    ∷ issue_if (is_other_revision i.model_revision r.model_revision) (revision_mismatch node)
    ∷ issue_if (is_none (named_identity r.tokenizer_identity)) (tokenizer_unavailable node)
    ∷ evidence_issues node r.ready_evidence
    ∷ rank_issues node seen r.rank
    ∷ []

unfoldable pub runtime_issues : ModelInstance → List ℤ → String → Runtime → List Issue
runtime_issues i seen node r = joined (runtime_checks i seen node r)

abbrev pub reported_issues : ModelInstance → List ℤ → Report → Option Runtime → List Issue
reported_issues i seen r none = runtime_unavailable r.node ∷ []
reported_issues i seen r (some runtime) =
    runtime_issues i seen r.node runtime
    ++ issue_if (not r.process_running) (process_not_running r.node)

-- The issues of one report.
unfoldable pub found : ModelInstance → List ℤ → Report → List Issue
unfolding runtime_issues
found i seen r =
    issue_if (not (r.resource_issue == "")) (resource_refused r.node r.resource_issue)
    ++ reported_issues i seen r r.runtime
