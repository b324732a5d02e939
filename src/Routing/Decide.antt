-- ===== src/Routing/Decide.antt =====
-- `AutoRouter.decide` of tokenity/control/routing.py, from the scores on, and `RouterMetrics`.
--
-- The order of the scores is taken as total, as it is for floats but NaN.
use tokenity.Common.{
  ℕ, ◌+◌, Bool, true, false, if◌then◌else◌, ◌==◌, ◌&&◌, ◌||◌, not, is_none, keep, List, [], ◌∷◌,
  Option, none, some, or_default, String, Dict, lookup, insert, string_eq, pair_eq, option_eq,
  pos_part, text_le,
}
use tokenity.Routing.{
  Floats, RouteReason, explicit_model, session_sticky, deterministic_rule, scored_best,
  default_low_confidence, no_eligible_model, RouteContext, infer_task_category, has_text, is_empty,
  number, max_float, min_float, RoutePolicy, Profile, RuntimeState, quality_for, predicted_ttft_ms,
  hard_constraint_reasons, Key, key_of,
}

module _ (F : Floats) where
  open F use {Float, decimal, add, minus, times, over, lt}

  -- `{(runtime.model_id, runtime.revision): runtime for runtime in runtimes}`
  unfoldable pub runtime_by_key :
      List (RuntimeState F) → Dict Key (RuntimeState F) → Dict Key (RuntimeState F)
  runtime_by_key [] d = d
  runtime_by_key (r ∷ rs) d = runtime_by_key rs (insert (r.model_id, r.revision) r d)

  -- `queue_penalty` and `failure_risk`; `max(0, n)` is the positive part
  unfoldable pub queue_penalty : Option (RuntimeState F) → Float
  queue_penalty none = number F 0
  queue_penalty (some r) =
      add
        (add (times (number F (pos_part r.queue_depth)) (decimal 75 2))
          (times (number F (pos_part r.active_request_count)) (decimal 35 2)))
        (over (max_float F (number F 0) r.predicted_queue_wait_ms) (number F 1000))

  unfoldable pub failure_risk : Profile F → Option (RuntimeState F) → Float
  failure_risk p none = p.failure_rate
  failure_risk p (some r) = max_float F p.failure_rate r.recent_failure_rate

  -- `score`
  unfoldable pub score_of :
      String → RouteContext → RoutePolicy F → Profile F → Option (RuntimeState F) → Float
  unfolding quality_for predicted_ttft_ms queue_penalty failure_risk
  score_of category x w p runtime =
      let base =
        add
          (minus
            (minus
              (minus (times w.quality_weight (quality_for F category p))
                (times w.latency_weight (predicted_ttft_ms F p)))
              (times w.queue_weight (queue_penalty runtime)))
            (times w.failure_weight (failure_risk p runtime)))
          (times w.priority_weight p.user_priority) in
      if x.sticky_model_id == some p.model_id then add base w.affinity_weight else base

  -- An eligible profile with its score.
  pub record Ranked : Type 0 where
    pub profile : Profile F
    pub score : Float

  -- The eligible profiles, in the order of the argument.
  unfoldable pub eligible_profiles :
      Dict Key (RuntimeState F)
      → String
      → RouteContext
      → RoutePolicy F
      → List (Profile F)
      → List Ranked
  eligible_profiles d category x w [] = []
  eligible_profiles d category x w (p ∷ ps) =
      let rest = eligible_profiles d category x w ps in
      let runtime = lookup (key_of F p) d in
      if is_empty (hard_constraint_reasons F p runtime x)
      then record { profile = p; score = score_of category x w p runtime } ∷ rest
      else rest

  -- `eligible_by_key.get(key)`: of two profiles under one key, the later one
  unfoldable pub eligible_by_key : Key → List Ranked → Option Ranked
  eligible_by_key k [] = none
  eligible_by_key k (r ∷ rs) = elim (eligible_by_key k rs) [
    | some later ↦ some later
    | none ↦ (if key_of F r.profile == k then some r else none)
  ]

  -- Does `b` come strictly before `a` in the order of (-score, revision)?
  abbrev pub beats : Ranked → Ranked → Bool
  beats b a =
      lt a.score b.score
      || not (lt b.score a.score) && not (text_le a.profile.revision b.profile.revision)

  -- `min` over the matches: the first stands unless a later one comes before it.
  unfoldable pub best_of : Ranked → List Ranked → Ranked
  best_of m [] = m
  best_of m (r ∷ rs) = best_of (if beats r m then r else m) rs

  abbrev pub best_match : List Ranked → Option Ranked
  best_match [] = none
  best_match (r ∷ rs) = some (best_of r rs)

  -- `best_for_model`
  unfoldable pub best_for_model : Option String → List Ranked → Option Ranked
  best_for_model none rs = none
  best_for_model (some id) rs =
      if id == "" then none else best_match (keep (λ r. r.profile.model_id == id) rs)

  -- The choice that names a model: by both parts of its key, or by its id alone.
  unfoldable pub named : Option String → Option String → List Ranked → Option Ranked
  named id revision rs =
      if has_text id && has_text revision
      then eligible_by_key (or_default id "", or_default revision "") rs
      else if has_text id
      then best_for_model id rs
      else none

  -- `sort(key=lambda item: (-score, model_id, revision))`: `a` stays before `b`
  abbrev pub stays_before : Ranked → Ranked → Bool
  stays_before a b =
      lt b.score a.score
      || not (lt a.score b.score)
        && (not (text_le b.profile.model_id a.profile.model_id)
            || a.profile.model_id == b.profile.model_id
              && text_le a.profile.revision b.profile.revision)

  unfoldable pub insert_ranked : Ranked → List Ranked → List Ranked
  insert_ranked a [] = a ∷ []
  insert_ranked a (b ∷ bs) =
      let rest = insert_ranked a bs in if stays_before a b then a ∷ b ∷ bs else b ∷ rest

  unfoldable pub rank : List Ranked → List Ranked
  unfolding insert_ranked
  rank [] = []
  rank (r ∷ rs) = insert_ranked r (rank rs)

  -- The part of `RouteDecision` that does not describe the candidates.
  pub record RouteDecision : Type 0 where
    pub selected : Option Key
    pub category : String
    pub reason : RouteReason
    pub confidence : Float
    pub routing_latency_ms : Float
    pub hard_constraints_satisfied : Bool

  abbrev pub selected_as : String → RouteReason → Float → Ranked → RouteDecision
  selected_as category reason confidence r = record {
    selected = some (key_of F r.profile);
    category = category;
    reason = reason;
    confidence = confidence;
    routing_latency_ms = number F 0;
    hard_constraints_satisfied = true;
  }

  abbrev pub rule_reason : String → RouteReason
  rule_reason category = if category == "general" then scored_best else deterministic_rule

  -- `max(0.0, min(1.0, 0.5 + margin))`
  abbrev pub confidence_of : Float → Float
  confidence_of margin =
      max_float F (number F 0) (min_float F (number F 1) (add (decimal 5 1) margin))

  -- The default takes the place of the best where there is one.
  abbrev pub or_best : String → Float → Ranked → Option Ranked → RouteDecision
  or_best category margin top (some r) = selected_as category default_low_confidence (decimal 5 1) r
  or_best category margin top none =
      selected_as category (rule_reason category) (confidence_of margin) top

  -- From the sorted profiles, and what `best_for_model` gives for the default model.
  unfoldable pub by_score :
      String → RoutePolicy F → Option Ranked → Ranked → List Ranked → RouteDecision
  by_score category w default top [] =
      selected_as category (rule_reason category) (confidence_of (number F 1)) top
  by_score category w default top (second ∷ rest) =
      let margin = minus top.score second.score in
      or_best category margin top (if lt margin w.low_confidence_margin then default else none)

  abbrev pub from_rank :
      String → RouteContext → RoutePolicy F → List Ranked → List Ranked → RouteDecision
  from_rank category x w rs [] = record {
    selected = none;
    category = category;
    reason = no_eligible_model;
    confidence = number F 0;
    routing_latency_ms = number F 0;
    hard_constraints_satisfied = false;
  }
  from_rank category x w rs (top ∷ rest) =
      by_score category w (best_for_model x.default_model_id rs) top rest

  abbrev pub sticky : RouteContext → List Ranked → Option Ranked
  sticky x rs = if x.topic_changed then none else named x.sticky_model_id x.sticky_revision rs

  -- The choice among the eligible profiles.
  unfoldable pub select : String → RouteContext → RoutePolicy F → List Ranked → RouteDecision
  select category x w rs = elim (named x.explicit_model_id x.explicit_revision rs) [
    | some r ↦ selected_as category explicit_model (number F 1) r
    | none ↦ elim (sticky x rs) [
      | some r ↦ selected_as category session_sticky (decimal 98 2) r
      | none ↦ from_rank category x w rs (rank rs)
    ]
  ]

  -- `RouterMetrics`
  pub record RouterMetrics : Type 0 where
    pub decisions : ℕ
    pub failures : ℕ
    pub sticky_hits : ℕ
    pub total_latency_ms : Float
    pub max_latency_ms : Float

  abbrev pub is_sticky : RouteReason → Bool
  is_sticky session_sticky = true
  is_sticky _ = false

  -- `record`
  unfoldable pub record_decision : RouteDecision → RouterMetrics → RouterMetrics
  record_decision d m = record {
    decisions = m.decisions + 1;
    failures = if is_none d.selected then m.failures + 1 else m.failures;
    sticky_hits = if is_sticky d.reason then m.sticky_hits + 1 else m.sticky_hits;
    total_latency_ms = add m.total_latency_ms d.routing_latency_ms;
    max_latency_ms = max_float F m.max_latency_ms d.routing_latency_ms;
  }

  -- `decide`, which ends in `_finish`: the measured latency is set and the decision counted.
  unfoldable pub decide :
      List (Profile F)
      → List (RuntimeState F)
      → RouteContext
      → RoutePolicy F
      → Float
      → RouterMetrics
      → RouterMetrics × RouteDecision
  decide ps rs x w latency m =
      let category = infer_task_category x in
      let chosen = select category x w (eligible_profiles (runtime_by_key rs []) category x w ps) in
      let finished : RouteDecision = record chosen { routing_latency_ms = latency } in
      (record_decision finished m, finished)
