-- ===== src/Routing/Tests.antt =====
-- Two models on one node; the floats are natural numbers of hundredths.
use tokenity.Common.{
  ℕ, ◌+◌, ◌-◌, ◌*◌, ◌/◌, ◌^◌, ◌≡◌, refl, true, false, ltb, leb, List, [], ◌∷◌, none, some, String,
  pos, arith, insert, lookup, sort, Option,
}
use tokenity.Routing.{
  Floats, RouteContext, RoutePolicy, Profile, RuntimeState, infer_task_category,
  hard_constraint_reasons, routable, quality_for, predicted_ttft_ms,
}
use tokenity.Routing.Decide.{
  RouterMetrics, decide, runtime_by_key, eligible_profiles, eligible_by_key, best_of,
  best_for_model, named, insert_ranked, rank, by_score, select, score_of, queue_penalty,
  failure_risk,
}
use tokenity.Routing.Choice.{offers, decide-offers}
use tokenity.Routing.Outcome.{IsCounted}

abbrev hundredths : Floats
hundredths = record {
  Float = ℕ;
  decimal = λ m e. m * 100 / 10 ^ e;
  add = λ a b. a + b;
  minus = λ a b. a - b;
  times = λ a b. a * b / 100;
  over = λ a b. a * 100 / b;
  lt = ltb;
  le = leb;
}

abbrev profile : String → Profile hundredths
profile name = record {
  model_id = name;
  revision = "r1";
  context_length = 1000;
  max_output_length = 100;
  languages = [];
  task_tags = "general" ∷ [];
  task_quality = [];
  supports_tools = false;
  supports_json = false;
  supports_thinking = false;
  modalities = "text" ∷ [];
  allow_auto = true;
  user_priority = 0;
  privacy_tier = pos 0;
  chat_template_defaults = [];
  supported_runtime_parameters = none;
  supported_chat_template_parameters = [];
  warm_ttft_p50_ms = none;
  warm_ttft_p95_ms = none;
  failure_rate = 0;
  quality_scores = [];
}

abbrev runtime : String → RuntimeState hundredths
runtime name = record {
  model_id = name;
  revision = "r1";
  ready = true;
  quorum_ready = true;
  state = "ready";
  queue_depth = pos 0;
  active_request_count = pos 0;
  heartbeat_age_seconds = 100;
  recent_failure_rate = 0;
  predicted_queue_wait_ms = 0;
}

abbrev asks : Option String → RouteContext
asks name = record {
  category = none;
  input_tokens = 10;
  requested_output_tokens = 10;
  language = none;
  requires_tools = false;
  requires_json = false;
  requires_thinking = false;
  modality = "text";
  allowed_model_ids = [];
  minimum_privacy_tier = pos 0;
  runtime_parameters = [];
  chat_template_parameters = [];
  sticky_model_id = none;
  sticky_revision = none;
  explicit_model_id = name;
  explicit_revision = some "r1";
  default_model_id = none;
  topic_changed = false;
  contains_code = false;
  has_compiler_error = false;
  has_file_diff = false;
  multi_step_reasoning = false;
  long_document = false;
  is_translation = false;
  is_rewrite = false;
}

-- `RoutePolicy.balanced()`
abbrev balanced : RoutePolicy hundredths
balanced = record {
  quality_weight = 150;
  latency_weight = 0;
  queue_weight = 16;
  failure_weight = 200;
  affinity_weight = 22;
  priority_weight = 6;
  low_confidence_margin = 4;
}

abbrev no_decisions : RouterMetrics hundredths
no_decisions = record {
  decisions = 0;
  failures = 0;
  sticky_hits = 0;
  total_latency_ms = 0;
  max_latency_ms = 0;
}

abbrev models : List (Profile hundredths)
models = profile "a" ∷ profile "b" ∷ []

abbrev runtimes : List (RuntimeState hundredths)
runtimes = runtime "b" ∷ []

b_offered : offers hundredths runtimes (asks (some "b")) models ("b", "r1") ≡ true
unfolding hard_constraint_reasons routable runtime_by_key insert lookup sort
b_offered = refl

decided :
    (decide hundredths models runtimes (asks none) balanced 1 no_decisions).1.selected
    ≡ some ("b", "r1")
unfolding decide hard_constraint_reasons routable runtime_by_key insert lookup sort
    eligible_profiles eligible_by_key best_of best_for_model named insert_ranked rank by_score
    select score_of quality_for predicted_ttft_ms queue_penalty failure_risk infer_task_category
decided = refl

decide-offers_example : offers hundredths runtimes (asks none) models ("b", "r1") ≡ true
decide-offers_example =
    decide-offers hundredths models runtimes (asks none) balanced 1 no_decisions ("b", "r1") decided

no_decisions-IsCounted : IsCounted hundredths no_decisions
unfolding IsCounted
no_decisions-IsCounted = omega arith
