-- ===== src/Readiness/Versions.antt =====
-- Writers of the readiness state of tokenity/serving/readiness.py exclude one another by version.
use tokenity.Common.{
  ℕ, ◌≤◌, ◌≡◌, refl, true, false, if◌then◌else◌, List, [], ◌∷◌, Option, none, some, String, ◌==◌,
  lookup, insert, string_eq, lookup-insert, arith,
}
use tokenity.Readiness.{
  ReadinessPhase, ReadinessState, RequestTrace, transition, record_request_event, trace_for,
}

pub data Write : Type 0 where
  moves : ReadinessPhase → Option String → Option ℕ → Option String → Option String → ℕ → Write
  notes : String → String → ℕ → Write

unfoldable pub write : ReadinessState → Write → ReadinessState
unfolding transition record_request_event
write s (moves phase message expected error evidence now) =
    (transition phase message expected error evidence now s).0
write s (notes id event at) = record_request_event id event at s

unfoldable pub writes : ReadinessState → List Write → ReadinessState
unfolding write
writes s [] = s
writes s (w ∷ ws) = writes (write s w) ws

version-write : (s : ReadinessState) (w : Write) → s.version ≤ (write s w).version
unfolding write
version-write s (moves phase message expected error evidence now) = ground arith
version-write s (notes id event at) = ground arith

version-writes : (s : ReadinessState) (ws : List Write) → s.version ≤ (writes s ws).version
unfolding writes
version-writes s [] = omega arith
version-writes s (w ∷ ws) = omega (arith, version-write s w, version-writes (write s w) ws)

-- Once a transition has been accepted, a transition that expects the version from before it, or an
-- older one, is refused and changes nothing, whatever was written in between.
pub late_writer_refused :
    (s : ReadinessState) (a b : ReadinessPhase) (m n e f : Option String) (expected : Option ℕ)
    (evidence other : Option String) (now later old : ℕ) (ws : List Write)
    → (transition a m expected e evidence now s).1 ≡ true
    → old ≤ s.version
    → transition b n
        (some old)
        f
        other
        later
        (writes (transition a m expected e evidence now s).0 ws)
      ≡ (writes (transition a m expected e evidence now s).0 ws, false)
unfolding transition
late_writer_refused s a b m n e f expected evidence other now later old ws h k =
    ground (arith, version-writes (transition a m expected e evidence now s).0 ws)

request_id-trace_for : (id : String) (o : Option RequestTrace) → (trace_for id o).request_id ≡ id
request_id-trace_for id none = refl
request_id-trace_for id (some t) = ground (arith, string_eq.equal_iff t.request_id id)

-- The time of an event that is recorded is found under it, and every other event of the same
-- request keeps its time, while those of another request are dropped.
pub recorded_events :
    (id event other : String) (at : ℕ) (s : ReadinessState)
    → (t : RequestTrace) × ((record_request_event id event at s).last_request ≡ some t)
      × (t.request_id ≡ id)
      × (lookup other t.events
          ≡ (if event == other then some at else lookup other (trace_for id s.last_request).events))
unfolding record_request_event
recorded_events id event other at s =
    let t = trace_for id s.last_request in
    (
      record t { events = insert event at t.events },
      ground arith,
      request_id-trace_for id s.last_request,
      lookup-insert event other at t.events,
    )
