-- ===== src/Agent/Reconcile/Tests.antt =====
-- An instance that loads on one node and on two.
use tokenity.Common.{ℕ, ◌≡◌, ◌⊎◌, refl, true, false, [], none, some, lookup}
use tokenity.Lifecycle.{ready, loading_metadata, transitions}
use tokenity.Instance.{ModelInstance, transition}
use tokenity.Instance.Samples.{sample}
use tokenity.Agent.Quorum.{advance_from}
use tokenity.Agent.Reconcile.{
  Published, reconcile_instance_runtime, mismatch, apply, load, merge_runtime_clock,
}
use tokenity.Agent.Reconcile.Moves.{IsOwn, IsMove, reconcile-moves}

abbrev one : ModelInstance
one = sample "i-1" "qwen" loading_metadata

abbrev two : ModelInstance
two = record one { world_size = 2 }

abbrev published : ℕ → Published
published ranks = record {
  version = some 4;
  instance_id = some "i-1";
  operation_id = some "op-1";
  world_size = some ranks;
  connection_mode = some "ring";
  model_revision = none;
  status_stale = false;
  updated_at = none;
  phase = "ready";
  message = "";
  error = "error";
  evidence = "evidence";
  tokenizer_identity = some "t";
}

alone :
    (reconcile_instance_runtime
      (published 1)
      true
      "single-node-openai"
      5
      []
      one).instance_after.state
    ≡ ready
unfolding reconcile_instance_runtime mismatch apply load advance_from transition transitions
    merge_runtime_clock lookup
alone = refl

coordinator_waits :
    (reconcile_instance_runtime
      (published 2)
      true
      "distributed-openai"
      5
      []
      two).instance_after.state
    ≡ loading_metadata
unfolding reconcile_instance_runtime mismatch apply load advance_from transition transitions
    merge_runtime_clock lookup
coordinator_waits = refl

reconcile-moves_example :
    ((reconcile_instance_runtime
        (published 1)
        true
        "single-node-openai"
        5
        []
        one).instance_after.state
      ≡ loading_metadata)
    ⊎ (IsOwn one [] (published 1)
        × IsMove
            (published 1)
            true
            "single-node-openai"
            one
            (reconcile_instance_runtime
              (published 1)
              true
              "single-node-openai"
              5
              []
              one).instance_after.state)
reconcile-moves_example = reconcile-moves (published 1) true "single-node-openai" 5 [] one
