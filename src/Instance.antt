-- ===== src/Instance.antt =====
-- `ModelInstance` of tokenity/control/instances.py: one loaded model, its lifecycle state, its
-- version and its request counters. A method returns the new record, or raises and changes nothing.
--
-- Times are natural numbers of a clock tick, and each call takes the time that it reads as `now`.
-- The free-form JSON objects (evidence, errors) are carried as their text, since the code only
-- stores and copies them. The request counters start at 0 and are written by these methods alone,
-- so they are natural numbers.
pub mod Invariant
pub mod Leases
pub mod Trace
pub mod Samples
mod Tests
use tokenity.Common.{
  ℕ, suc, ◌+◌, ◌-◌, ◌≡◌, Bool, true, false, if◌then◌else◌, ltb, ◌==◌, ◌&&◌, ◌||◌, not, contains,
  List, [], ◌∷◌, Option, none, some, or_default, max, String, Dict, ℤ, is_neg, nat_eq, string_eq,
  arith,
}
use tokenity.Errors.{
  Result, ok, err, value_error, invalid_lifecycle_transition, stale_instance_update,
  instance_conflict, ◌>>=◌, ◌>>◌, raise_if,
}
use tokenity.Ratio.{Ratio, within}
use tokenity.Lifecycle.{
  Lifecycle, lifecycle_eq, ready, busy, unloading, stopped, transitions, serves,
}

-- A JSON object, as its text.
abbrev pub Document : Type 0
Document = String

pub record ModelInstance : Type 0 where
  pub instance_id : String
  pub operation_id : String
  pub requested_model_id : String
  pub resolved_path : String
  pub model_revision : Option String
  pub tokenizer_identity : Option String
  pub execution_mode : String
  pub selected_nodes : List String
  pub rank_mapping : Dict String ℕ
  pub world_size : ℕ
  pub connection_mode : String
  pub coordinator : String
  pub http_port : ℕ
  pub starting_port : ℕ
  pub memory_reservation_bytes : ℤ
  pub memory_headroom_ratio : Ratio
  pub state : Lifecycle
  pub version : ℕ
  pub generation : ℕ
  pub created_at : ℕ
  pub updated_at : ℕ
  pub deadline : Option ℕ
  pub heartbeat_at : Option ℕ
  pub actual_memory_bytes : Option ℕ
  pub active_request_count : ℕ
  pub readiness_evidence : Document
  pub last_error : Option Document
  pub log_paths : Dict String String
  pub process_identities : Dict String ℕ
  pub queued_request_count : ℕ
  pub memory_reservation_breakdown : Option Document
  pub health_ready : Option Bool
  pub health_sampled_at : Option ℕ
  pub health_issues : List String

-- `__post_init__`: the checks of the constructor.
unfoldable pub post_init : ModelInstance → Result ModelInstance
post_init s = do
  raise_if (is_neg s.memory_reservation_bytes) value_error
  raise_if (not (within s.memory_headroom_ratio 400000)) value_error
  ok s

-- `expected_version is not None and expected_version != self.version`
abbrev pub is_stale : Option ℕ → ℕ → Bool
is_stale none version = false
is_stale (some expected) version = not (expected == version)

-- The writes of `transition` behind its checks, in their order.
mark_health : Lifecycle → ModelInstance → ModelInstance
mark_health unloading s = record s {
  health_ready = some false;
  health_sampled_at = some s.updated_at;
  health_issues = "Instance is unloading." ∷ [];
}
mark_health stopped s = record s {
  health_ready = some false;
  health_sampled_at = some s.updated_at;
  health_issues = "Instance is stopped." ∷ [];
}
mark_health _ s = s

clear_counters : Lifecycle → ModelInstance → ModelInstance
clear_counters stopped s = record s {
  actual_memory_bytes = none;
  active_request_count = 0;
  queued_request_count = 0;
}
clear_counters _ s = s

abbrev pub or_keep : Option Document → Option Document → Option Document
or_keep none old = old
or_keep (some d) old = some d

enter : Lifecycle → Option Document → Option Document → ℕ → ModelInstance → ModelInstance
unfolding mark_health clear_counters
enter state evidence error now s = clear_counters state (
    mark_health state (record s {
      state = state;
      version = s.version + 1;
      updated_at = now;
      readiness_evidence = or_default evidence s.readiness_evidence;
      last_error = or_keep error s.last_error;
    }))

-- `transition(state, expected_version, readiness_evidence, error)`
unfoldable pub transition :
    Lifecycle
    → Option ℕ
    → Option Document
    → Option Document
    → ℕ
    → ModelInstance
    → Result (ModelInstance × ℕ)
unfolding enter transitions
transition state expected evidence error now s = do
  raise_if (is_stale expected s.version) stale_instance_update
  if state == s.state then ok (s, s.version) else do
    raise_if (not (contains state (transitions s.state))) invalid_lifecycle_transition
    raise_if (state == unloading && (ltb 0 s.active_request_count || ltb 0 s.queued_request_count))
        instance_conflict
    ok (enter state evidence error now s, s.version + 1)

-- `if self.state == READY: self.state = BUSY; self.version += 1`, then the time stamp
note_busy : Lifecycle → ℕ → ModelInstance → ModelInstance
note_busy ready now s = record s { state = busy; version = s.version + 1; updated_at = now }
note_busy _ now s = record s { updated_at = now }

-- the same the other way round, once nothing is active or queued
note_idle : Lifecycle → ℕ → ModelInstance → ModelInstance
note_idle busy now s =
    if (s.active_request_count == 0) && (s.queued_request_count == 0)
    then record s { state = ready; version = s.version + 1; updated_at = now }
    else record s { updated_at = now }
note_idle _ now s = record s { updated_at = now }

unfoldable pub acquire_request_lease : ℕ → ModelInstance → Result (ModelInstance × ℕ)
unfolding note_busy
acquire_request_lease now s = do
  raise_if (not (serves s.state)) instance_conflict
  let n = s.active_request_count + 1
  ok (note_busy s.state now (record s { active_request_count = n }), n)

unfoldable pub release_request_lease : ℕ → ModelInstance → Result (ModelInstance × ℕ)
unfolding note_idle
release_request_lease now s = do
  raise_if (s.active_request_count == 0) instance_conflict
  let n = s.active_request_count - 1
  ok (note_idle s.state now (record s { active_request_count = n }), n)

unfoldable pub enqueue_request : ℕ → ModelInstance → Result (ModelInstance × ℕ)
unfolding note_busy
enqueue_request now s = do
  raise_if (not (serves s.state)) instance_conflict
  let n = s.queued_request_count + 1
  ok (note_busy s.state now (record s { queued_request_count = n }), n)

unfoldable pub dequeue_request : ℕ → ModelInstance → Result (ModelInstance × ℕ)
unfolding note_idle
dequeue_request now s = do
  raise_if (s.queued_request_count == 0) instance_conflict
  let n = s.queued_request_count - 1
  ok (note_idle s.state now (record s { queued_request_count = n }), n)

-- `heartbeat(ttl_seconds)`: a deadline that was granted is never shortened.
unfoldable pub heartbeat : ℕ → ℕ → ModelInstance → ModelInstance
heartbeat ttl now s = record s {
  heartbeat_at = some now;
  deadline = some (max (or_default s.deadline 0) (now + ttl));
  updated_at = now;
}

-- A call of one of the methods above, with the time that it reads.
pub data Call : Type 0 where
  transits : Lifecycle → Option ℕ → Option Document → Option Document → ℕ → Call
  acquires : ℕ → Call
  releases : ℕ → Call
  enqueues : ℕ → Call
  dequeues : ℕ → Call
  beats : ℕ → ℕ → Call

unfoldable pub call : Call → ModelInstance → Result (ModelInstance × ℕ)
unfolding transition acquire_request_lease release_request_lease enqueue_request dequeue_request
    heartbeat
call (transits state expected evidence error now) s = transition state expected evidence error now s
call (acquires now) s = acquire_request_lease now s
call (releases now) s = release_request_lease now s
call (enqueues now) s = enqueue_request now s
call (dequeues now) s = dequeue_request now s
call (beats ttl now) s = ok (heartbeat ttl now s, s.version)

-- A call that raises leaves the instance as it was.
abbrev pub after : ModelInstance → Result (ModelInstance × ℕ) → ModelInstance
after s (ok (t, n)) = t
after s (err e) = s

unfoldable pub step : ModelInstance → Call → ModelInstance
unfolding call
step s c = after s (call c s)

unfoldable pub run : ModelInstance → List Call → ModelInstance
run s [] = s
run s (c ∷ cs) = run (step s c) cs
