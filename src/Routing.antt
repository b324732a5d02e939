-- ===== src/Routing.antt =====
-- `AutoRouter` and its records of tokenity/control/routing.py: the model that serves a request
-- which leaves the choice to the router.
--
-- The scores are Python floats: their type and arithmetic are an argument, the record `Floats`.
-- The latency of a decision is an argument too, as the readings of the clock lie around the code.
-- A set is a list, and a mapping an association list.
pub mod Decide
pub mod Choice
pub mod Outcome
mod Tests
use tokenity.Common.{
  ℕ, suc, ◌+◌, Bool, true, false, if◌then◌else◌, ltb, leb, ◌==◌, ◌&&◌, ◌||◌, not, contains, any,
  is_none, keep, map, List, [], ◌∷◌, ◌++◌, Option, none, some, or_default, String, Dict, lookup,
  insert, erase, string_eq, pair_eq, option_eq, sort, strip, ℤ, pos_part, ltb_ℤ, text_le,
}

-- What the code computes with floats: `decimal m e` is the literal m / 10 ^ e.
pub record Floats : Type 1 where
  pub Float : Type 0
  pub decimal : ℕ → ℕ → Float
  pub add : Float → Float → Float
  pub minus : Float → Float → Float
  pub times : Float → Float → Float
  pub over : Float → Float → Float
  pub lt : Float → Float → Bool
  pub le : Float → Float → Bool

-- `RouteReason`
pub data RouteReason : Type 0 where
  explicit_model session_sticky deterministic_rule scored_best default_low_confidence
        no_eligible_model :
      RouteReason

-- `ROUTE_CATEGORIES`
abbrev pub route_categories : List String
route_categories =
    "fast-chat" ∷ "general" ∷ "coding" ∷ "reasoning" ∷ "long-context" ∷ "tool-use" ∷ []

-- `RouteContext`
pub record RouteContext : Type 0 where
  pub category : Option String
  pub input_tokens : ℕ
  pub requested_output_tokens : ℕ
  pub language : Option String
  pub requires_tools : Bool
  pub requires_json : Bool
  pub requires_thinking : Bool
  pub modality : String
  pub allowed_model_ids : List String
  pub minimum_privacy_tier : ℤ
  pub runtime_parameters : List String
  pub chat_template_parameters : List String
  pub sticky_model_id : Option String
  pub sticky_revision : Option String
  pub explicit_model_id : Option String
  pub explicit_revision : Option String
  pub default_model_id : Option String
  pub topic_changed : Bool
  pub contains_code : Bool
  pub has_compiler_error : Bool
  pub has_file_diff : Bool
  pub multi_step_reasoning : Bool
  pub long_document : Bool
  pub is_translation : Bool
  pub is_rewrite : Bool

-- `context.category in ROUTE_CATEGORIES`, with the category
abbrev pub known_category : Option String → Option String
known_category none = none
known_category (some c) = if contains c route_categories then some c else none

abbrev pub inferred_category : RouteContext → String
inferred_category x =
    if x.requires_tools
    then "tool-use"
    else if x.long_document
    then "long-context"
    else if x.contains_code || x.has_compiler_error || x.has_file_diff
    then "coding"
    else if x.multi_step_reasoning
    then "reasoning"
    else if x.is_translation || x.is_rewrite
    then "fast-chat"
    else "general"

-- `infer_task_category`
unfoldable pub infer_task_category : RouteContext → String
infer_task_category x = or_default (known_category x.category) (inferred_category x)

-- What `_hard_constraint_reasons` reports.
pub data Constraint : Type 0 where
  auto_disabled runtime_not_ready not_in_allowed_models context_capacity output_capacity
        tools_unsupported json_unsupported thinking_unsupported modality_unsupported
        language_unsupported privacy_policy :
      Constraint
  runtime_parameter_unsupported chat_template_parameter_unsupported : String → Constraint

-- `if value:` for an optional text
abbrev pub has_text : Option String → Bool
has_text none = false
has_text (some s) = not (s == "")

abbrev pub is_empty {ℓ} : {A : Type ℓ} → List A → Bool
is_empty [] = true
is_empty (x ∷ xs) = false

abbrev pub report : Bool → Constraint → List Constraint → List Constraint
report true c cs = c ∷ cs
report false c cs = cs

-- `sorted(wanted.difference(supported))`
abbrev pub unsupported : List String → List String → List String
unsupported wanted supported = sort (λ s. s) (keep (λ s. not (contains s supported)) wanted)

abbrev pub runtime_reasons : List String → Option (List String) → List Constraint
runtime_reasons wanted none = []
runtime_reasons wanted (some supported) =
    map runtime_parameter_unsupported (unsupported wanted supported)

abbrev pub lacks_language : Option String → List String → Bool
lacks_language none languages = false
lacks_language (some l) languages =
    not (l == "") && not (is_empty languages) && not (contains l languages)

abbrev pub Key : Type 0
Key = String × String

module _ (F : Floats) where
  open F use {Float, decimal, add, minus, times, over, lt, le}

  abbrev pub number : ℕ → Float
  number n = decimal n 0

  -- `max(a, b)`: the first stands unless the second beats it
  abbrev pub max_float : Float → Float → Float
  max_float a b = if lt a b then b else a

  abbrev pub min_float : Float → Float → Float
  min_float a b = if lt b a then b else a

  -- `RoutePolicy`, without its name
  pub record RoutePolicy : Type 0 where
    pub quality_weight : Float
    pub latency_weight : Float
    pub queue_weight : Float
    pub failure_weight : Float
    pub affinity_weight : Float
    pub priority_weight : Float
    pub low_confidence_margin : Float

  -- `ModelCapabilityProfile`, the fields that the router reads
  pub record Profile : Type 0 where
    pub model_id : String
    pub revision : String
    pub context_length : ℕ
    pub max_output_length : ℕ
    pub languages : List String
    pub task_tags : List String
    pub task_quality : Dict String Float
    pub supports_tools : Bool
    pub supports_json : Bool
    pub supports_thinking : Bool
    pub modalities : List String
    pub allow_auto : Bool
    pub user_priority : Float
    pub privacy_tier : ℤ
    pub chat_template_defaults : List String
    pub supported_runtime_parameters : Option (List String)
    pub supported_chat_template_parameters : List String
    pub warm_ttft_p50_ms : Option Float
    pub warm_ttft_p95_ms : Option Float
    pub failure_rate : Float
    pub quality_scores : Dict String Float

  -- `ModelRuntimeState`; `state` is in lower case already
  pub record RuntimeState : Type 0 where
    pub model_id : String
    pub revision : String
    pub ready : Bool
    pub quorum_ready : Bool
    pub state : String
    pub queue_depth : ℤ
    pub active_request_count : ℤ
    pub heartbeat_age_seconds : Float
    pub recent_failure_rate : Float
    pub predicted_queue_wait_ms : Float

  -- `routable`
  unfoldable pub routable : RuntimeState → Bool
  routable r =
      r.ready
      && r.quorum_ready
      && (r.state == "ready" || r.state == "busy")
      && le r.heartbeat_age_seconds (number 15)

  -- `quality_for`
  unfoldable pub quality_for : String → Profile → Float
  quality_for category p = or_default (lookup category p.quality_scores) (
      or_default (lookup category p.task_quality) (
        if contains category p.task_tags
        then decimal 82 2
        else if contains "general" p.task_tags
        then decimal 68 2
        else decimal 5 1))

  -- `predicted_ttft_ms`
  unfoldable pub predicted_ttft_ms : Profile → Float
  predicted_ttft_ms p = elim p.warm_ttft_p95_ms [
    | some t ↦ max_float (number 0) t
    | none ↦ elim p.warm_ttft_p50_ms [
      | some t ↦ max_float (number 0) (times t (decimal 15 1))
      | none ↦ decimal 7500 1
    ]
  ]

  abbrev pub not_routable : Option RuntimeState → Bool
  not_routable none = true
  not_routable (some r) = not (routable r)

  -- `_hard_constraint_reasons`
  unfoldable pub hard_constraint_reasons :
      Profile → Option RuntimeState → RouteContext → List Constraint
  unfolding routable
  hard_constraint_reasons p runtime x =
      report (not p.allow_auto && not (some p.model_id == x.explicit_model_id)) auto_disabled (
        report (not_routable runtime) runtime_not_ready (
          report
            (not (is_empty x.allowed_model_ids) && not (contains p.model_id x.allowed_model_ids))
            not_in_allowed_models
            (report (ltb p.context_length (x.input_tokens + x.requested_output_tokens))
              context_capacity
              (report (ltb p.max_output_length x.requested_output_tokens) output_capacity (
                report (x.requires_tools && not p.supports_tools) tools_unsupported (
                  report (x.requires_json && not p.supports_json) json_unsupported (
                    report (x.requires_thinking && not p.supports_thinking) thinking_unsupported (
                      report (not (contains x.modality p.modalities)) modality_unsupported (
                        report (lacks_language x.language p.languages) language_unsupported (
                          report (ltb_ℤ p.privacy_tier x.minimum_privacy_tier) privacy_policy (
                            runtime_reasons x.runtime_parameters p.supported_runtime_parameters
                            ++ map chat_template_parameter_unsupported (
                                unsupported x.chat_template_parameters (
                                  p.supported_chat_template_parameters
                                  ++ p.chat_template_defaults)))))))))))))

  abbrev pub key_of : Profile → Key
  key_of p = (p.model_id, p.revision)
