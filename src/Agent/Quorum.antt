-- ===== src/Agent/Quorum.antt =====
-- `instance_quorum` of tokenity/node_agent/agent.py for a text model: whether the ranks of an instance
-- report together that it is ready, and what that does to the instance.
--
-- The reports are what the request has fetched, with the value of a key only where it has the type
-- that the code asks for. The text of an issue and the evidence that is stored are arguments. Byte
-- counts are not negative.
pub mod Reports
pub mod Healthy
pub mod Scans
pub mod Sound
pub mod Moves
mod Tests
use tokenity.Common.{
  ℕ, ◌+◌, Bool, true, false, if◌then◌else◌, ◌==◌, ◌&&◌, ◌||◌, not, ltb, contains, all, map, length,
  is_none, List, [], ◌∷◌, ◌++◌, Option, none, some, String, ℤ, pos, nat_eq, string_eq,
}
use tokenity.Errors.{Error, Result, ok, err}
use tokenity.Lifecycle.{
  Lifecycle, lifecycle_eq, loading_metadata, materializing_weights, compiling_warming, ready,
}
use tokenity.Instance.{ModelInstance, Document, transition}
use tokenity.Agent.{range}
use tokenity.Agent.Quorum.Reports.{
  Issue, Report, Runtime, Evidence, found, issue_if, joined, rank_quorum_mismatch,
  tokenizer_mismatch, no_probe, transition_failed, rank_eq, observed_bytes, is_stale_memory,
  named_identity, probe_of,
}

-- The variables of the loop over the ranks.
pub record Scan : Type 0 where
  pub issues : List Issue
  pub seen_ranks : List ℤ
  pub tokenizer_identities : List String
  pub rank0_probe_succeeded : Bool
  pub observed_runtime_bytes : ℕ
  pub observed_rank_count : ℕ
  pub stale_memory_ranks : ℕ

abbrev pub nothing_seen : Scan
nothing_seen = record {
  issues = [];
  seen_ranks = [];
  tokenizer_identities = [];
  rank0_probe_succeeded = false;
  observed_runtime_bytes = 0;
  observed_rank_count = 0;
  stale_memory_ranks = 0;
}

-- `tokenizer_identities.add` and `seen_ranks.add`, where there is something to add
abbrev pub add_identity : Option String → List String → List String
add_identity none names = names
add_identity (some name) names = if contains name names then names else name ∷ names

abbrev pub add_rank : Option ℤ → List ℤ → List ℤ
add_rank none ranks = ranks
add_rank (some rank) ranks = rank ∷ ranks

abbrev pub add_bytes : Option ℕ → ℕ → ℕ
add_bytes none total = total
add_bytes (some bytes) total = total + bytes

abbrev pub or_before : Option Bool → Bool → Bool
or_before none before = before
or_before (some now) before = now

-- What a report's runtime adds to the variables other than the issues.
abbrev pub gather : Option Runtime → Scan → Scan
gather none s = s
gather (some r) s = record s {
  seen_ranks = add_rank r.rank s.seen_ranks;
  tokenizer_identities = add_identity (named_identity r.tokenizer_identity) s.tokenizer_identities;
  rank0_probe_succeeded = or_before (probe_of r.rank r.ready_evidence) s.rank0_probe_succeeded;
  observed_runtime_bytes = add_bytes (observed_bytes r.memory) s.observed_runtime_bytes;
  observed_rank_count =
      s.observed_rank_count + (if is_none (observed_bytes r.memory) then 0 else 1);
  stale_memory_ranks = s.stale_memory_ranks + (if is_stale_memory r.memory then 1 else 0);
}

-- The body of the loop.
unfoldable pub examine : ModelInstance → Scan → Report → Scan
examine i s r = gather r.runtime (record s { issues = s.issues ++ found i s.seen_ranks r })

unfoldable pub scan : ModelInstance → Scan → List Report → Scan
scan i s [] = s
scan i s (r ∷ rs) = scan i (examine i s r) rs

abbrev pub is_below : ℕ → ℤ → Bool
is_below n (pos k) = ltb k n
is_below n _ = false

-- `seen_ranks == set(range(instance.world_size))`
unfoldable pub is_quorum : ℕ → List ℤ → Bool
is_quorum world_size ranks =
    all (is_below world_size) ranks && all (λ k. contains (pos k) ranks) (range 0 world_size)

-- The issues with those that only all ranks together show.
abbrev pub checks_of : ModelInstance → Scan → List (List Issue)
checks_of i s =
    s.issues
    ∷ issue_if (not (is_quorum i.world_size s.seen_ranks)) rank_quorum_mismatch
    ∷ issue_if (ltb 1 (length s.tokenizer_identities)) tokenizer_mismatch
    ∷ issue_if (not s.rank0_probe_succeeded) no_probe
    ∷ []

unfoldable pub issues_of : ModelInstance → Scan → List Issue
issues_of i s = joined (checks_of i s)

abbrev pub no_issue : List Issue → Bool
no_issue [] = true
no_issue (x ∷ xs) = false

-- `not issues and len(ranks) == instance.world_size`
unfoldable pub is_ready : ModelInstance → List Report → Bool
is_ready i rs = no_issue (issues_of i (scan i nothing_seen rs)) && length rs == i.world_size

-- A call of `transition` that is made in one state only. An exception skips what follows; what was
-- written before it stays.
abbrev pub moved : ModelInstance → Result (ModelInstance × ℕ) → ModelInstance × Option Error
moved i (ok (next, version)) = (next, none)
moved i (err e) = (i, some e)

unfoldable pub advance_from :
    Lifecycle
    → Lifecycle
    → Option Document
    → ℕ
    → ModelInstance × Option Error
    → ModelInstance × Option Error
advance_from here next evidence now (i, some e) = (i, some e)
advance_from here next evidence now (i, none) =
    if i.state == here then moved i (transition next none evidence none now i) else (i, none)

-- The three guarded transitions.
unfoldable pub advance : Document → ℕ → ModelInstance → ModelInstance × Option Error
advance evidence now i = advance_from compiling_warming ready (some evidence) now (
    advance_from materializing_weights compiling_warming none now
      (advance_from loading_metadata materializing_weights none now (i, none)))

pub record Outcome : Type 0 where
  pub ready : Bool
  pub issues : List Issue
  pub instance_after : ModelInstance

abbrev pub concluded : List Issue → ModelInstance × Option Error → Outcome
concluded issues (i, none) = record { ready = true; issues = issues; instance_after = i }
concluded issues (i, some e) = record {
  ready = false;
  issues = issues ++ (transition_failed e ∷ []);
  instance_after = i;
}

-- The writes of the health of the instance.
unfoldable pub with_health : (Issue → String) → ℕ → List Report → ModelInstance → ModelInstance
with_health message now rs i =
    let s = scan i nothing_seen rs in
    record i {
      health_ready = some (is_ready i rs);
      health_sampled_at = some now;
      health_issues = map message (issues_of i s);
      actual_memory_bytes =
          if s.observed_rank_count == i.world_size then some s.observed_runtime_bytes else none;
    }

unfoldable pub instance_quorum :
    (Issue → String) → Document → ℕ → List Report → ModelInstance → Outcome
instance_quorum message evidence now rs i =
    let sampled = with_health message now rs i in
    let issues = issues_of i (scan i nothing_seen rs) in
    if is_ready i rs && not (sampled.state == ready)
    then concluded issues (advance evidence now sampled)
    else record { ready = is_ready i rs; issues = issues; instance_after = sampled }
