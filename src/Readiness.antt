-- ===== src/Readiness.antt =====
-- `ReadinessState` of tokenity/serving/readiness.py: the state that a runtime publishes. What the
-- code only stores (a report of an error, evidence) is a text; publishing to the file is left out.
pub mod Versions
mod Tests
use tokenity.Common.{
  ℕ, ◌+◌, Bool, true, false, if◌then◌else◌, ◌==◌, not, List, [], ◌∷◌, Option, none, some,
  or_default, String, Dict, insert, lookup, nat_eq, string_eq,
}

-- `ReadinessPhase`
pub data ReadinessPhase : Type 0 where
  launching distributed_init loading_model compiling ready prefill_pending generating failed
        stopping :
      ReadinessPhase

-- `_CANONICAL_LIFECYCLE`
unfoldable pub lifecycle_state : ReadinessPhase → String
lifecycle_state launching = "launching"
lifecycle_state distributed_init = "distributed_initializing"
lifecycle_state loading_model = "materializing_weights"
lifecycle_state compiling = "compiling_warming"
lifecycle_state ready = "ready"
lifecycle_state prefill_pending = "busy"
lifecycle_state generating = "busy"
lifecycle_state failed = "failed"
lifecycle_state stopping = "unloading"

-- `last_request`: the id, and the events with their times; no event is called "request_id"
pub record RequestTrace : Type 0 where
  pub request_id : String
  pub events : Dict String ℕ

-- The fields of `ReadinessState` that its methods write.
pub record ReadinessState : Type 0 where
  pub phase : ReadinessPhase
  pub message : Option String
  pub version : ℕ
  pub ready_evidence : String
  pub last_error : Option String
  pub last_request : Option RequestTrace
  pub updated_at : ℕ

abbrev pub or_else {ℓ} : {A : Type ℓ} → Option A → Option A → Option A
or_else none b = b
or_else (some a) b = some a

-- `expected_version is not None and expected_version != self.version`
abbrev pub is_stale : Option ℕ → ℕ → Bool
is_stale none version = false
is_stale (some expected) version = not (expected == version)

-- `transition`, with the answer
unfoldable pub transition :
    ReadinessPhase
    → Option String
    → Option ℕ
    → Option String
    → Option String
    → ℕ
    → ReadinessState
    → ReadinessState × Bool
transition phase message expected error evidence now s =
    if is_stale expected s.version then (s, false) else (
      record s {
        phase = phase;
        message = or_else message s.message;
        last_error = or_else error s.last_error;
        ready_evidence = or_default evidence s.ready_evidence;
        version = s.version + 1;
        updated_at = now;
      },
      true,
    )

-- The trace of the request, a new one where the last is of another request.
abbrev pub trace_for : String → Option RequestTrace → RequestTrace
trace_for id none = record { request_id = id; events = [] }
trace_for id (some t) = if t.request_id == id then t else record { request_id = id; events = [] }

-- `record_request_event`, at a known time
unfoldable pub record_request_event : String → String → ℕ → ReadinessState → ReadinessState
record_request_event id event at s =
    let t = trace_for id s.last_request in
    record s {
      last_request = some (record t { events = insert event at t.events });
      updated_at = at;
    }
