-- ===== src/Instance/Samples.antt =====
-- Instances to test with.
use tokenity.Common.{[], ◌∷◌, none, String, pos}
use tokenity.Ratio.{finite}
use tokenity.Lifecycle.{Lifecycle, queued, ready}
use tokenity.Instance.{ModelInstance}

-- An instance of a model under an id, in a state.
abbrev pub sample : String → String → Lifecycle → ModelInstance
sample id model state = record {
  instance_id = id;
  operation_id = "op-1";
  requested_model_id = model;
  resolved_path = "/models/a";
  model_revision = none;
  tokenizer_identity = none;
  execution_mode = "single";
  selected_nodes = "n1" ∷ [];
  rank_mapping = [];
  world_size = 1;
  connection_mode = "ring";
  coordinator = "n1";
  http_port = 8080;
  starting_port = 9000;
  memory_reservation_bytes = pos 100;
  memory_headroom_ratio = finite (pos 250000);
  state = state;
  version = 0;
  generation = 1;
  created_at = 0;
  updated_at = 0;
  deadline = none;
  heartbeat_at = none;
  actual_memory_bytes = none;
  active_request_count = 0;
  readiness_evidence = "";
  last_error = none;
  log_paths = [];
  process_identities = [];
  queued_request_count = 0;
  memory_reservation_breakdown = none;
  health_ready = none;
  health_sampled_at = none;
  health_issues = [];
}

abbrev pub fresh : ModelInstance
fresh = sample "i-1" "qwen" queued

abbrev pub idle : ModelInstance
idle = sample "i-1" "qwen" ready
