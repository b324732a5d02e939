-- ===== src/Agent/Quorum/Tests.antt =====
-- Two ranks of an instance that loads its metadata.
use tokenity.Common.{
  ◌+◌, ◌≡◌, refl, true, false, if◌then◌else◌, List, [], ◌∷◌, none, some, String, ℤ, pos,
}
use tokenity.Lifecycle.{loading_metadata, ready}
use tokenity.Instance.{ModelInstance}
use tokenity.Instance.Samples.{sample}
use tokenity.Agent.{range}
use tokenity.Agent.Quorum.{
  nothing_seen, examine, scan, is_quorum, issues_of, is_ready, instance_quorum,
}
use tokenity.Agent.Quorum.Reports.{
  Issue, Report, found, runtime_issues, duplicate_rank, rank_quorum_mismatch,
}
use tokenity.Agent.Quorum.Sound.{IsQuorum, is_ready-IsQuorum}
use tokenity.Agent.Quorum.Moves.{instance_quorum-moves}

abbrev pair : ModelInstance
pair = record (sample "i-1" "qwen" loading_metadata) { world_size = 2 }

-- What a rank reports that has loaded.
abbrev loaded : String → ℤ → Report
loaded node rank = record {
  node = node;
  resource_issue = "";
  runtime = some (record {
    instance_id = some "i-1";
    operation_id = some "op-1";
    phase = some "ready";
    status_stale = false;
    memory = none;
    world_size = some 2;
    connection_mode = some "ring";
    model_revision = none;
    tokenizer_identity = some "t";
    ready_evidence = some (record {
      weights_materialized = true;
      tokenizer_ready = true;
      generation_engine_ready = true;
      one_token_probe = true;
      warmup_cache_isolated = true;
    });
    rank = some rank;
  });
  process_running = true;
}

abbrev two_ranks : List Report
two_ranks = loaded "n1" (pos 0) ∷ loaded "n2" (pos 1) ∷ []

two_ranks_ready : is_ready pair two_ranks ≡ true
unfolding is_ready issues_of is_quorum scan examine found runtime_issues range
two_ranks_ready = refl

twice :
    issues_of pair (scan pair nothing_seen (loaded "n1" (pos 0) ∷ loaded "n2" (pos 0) ∷ []))
    ≡ duplicate_rank "n2" (pos 0) ∷ rank_quorum_mismatch ∷ []
unfolding issues_of is_quorum scan examine found runtime_issues range
twice = refl

is_ready-IsQuorum_example : IsQuorum pair two_ranks
is_ready-IsQuorum_example = is_ready-IsQuorum pair two_ranks two_ranks_ready

abbrev say : Issue → String
say issue = "issue"

instance_quorum-moves_example :
    ((instance_quorum say "evidence" 7 two_ranks pair).ready ≡ is_ready pair two_ranks)
    × ((instance_quorum say "evidence" 7 two_ranks pair).issues
        ≡ issues_of pair (scan pair nothing_seen two_ranks))
    × ((instance_quorum say "evidence" 7 two_ranks pair).instance_after.health_ready
        ≡ some (is_ready pair two_ranks))
    × ((instance_quorum say "evidence" 7 two_ranks pair).instance_after.state
        ≡ (if is_ready pair two_ranks then ready else loading_metadata))
    × ((instance_quorum say "evidence" 7 two_ranks pair).instance_after.version
        ≡ 0 + (if is_ready pair two_ranks then 3 else 0))
instance_quorum-moves_example = instance_quorum-moves say "evidence" 7 two_ranks pair
