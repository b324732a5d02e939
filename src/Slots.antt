-- ===== src/Slots.antt =====
-- `GenerationSlotScheduler` of tokenity/control/instances.py: generations on overlapping sets of
-- nodes exclude one another, and are granted in the order of the requests.
--
-- A thread runs `acquire` in critical sections of the scheduler's condition: from its start to the
-- first `wait`, and from one wake-up to the next. Each such section is one function here (`start`,
-- `poll`), and a run is a sequence of them in any order. A set of nodes is a list.
pub mod Calls
pub mod Exclusion
pub mod Fifo
pub mod Mirror
mod Tests
use tokenity.Common.{
  ℕ, suc, ◌+◌, ◌≤◌, Bool, true, false, if◌then◌else◌, ltb, leb, ◌==◌, ◌&&◌, ◌||◌, not, any, is_none,
  nat_beq, contains, length, List, [], ◌∷◌, ◌++◌, Option, none, some, String, Dict, lookup, insert,
  erase, ℤ, is_neg, pos_part, strip, string_eq, nat_eq, option_eq, list_beq,
}
use tokenity.Errors.{
  Error, Result, ok, err, value_error, generation_queue_full, generation_slot_timeout,
  generation_slot_cancelled,
}
use tokenity.Instance.{ModelInstance}
use tokenity.Registry.{Registry, enqueue, dequeue}

-- `_GenerationSlotRecord`
pub record SlotRecord : Type 0 where
  pub lease_id : String
  pub instance_id : String
  pub selected_nodes : List String
  pub sequence : ℕ
  pub requested_at : ℕ
  pub acquired_at : Option ℕ

-- The equality of the frozen dataclass.
abbrev pub record_beq : SlotRecord → SlotRecord → Bool
record_beq a b =
    a.lease_id == b.lease_id
    && a.instance_id == b.instance_id
    && list_beq string_eq.equal a.selected_nodes b.selected_nodes
    && a.sequence == b.sequence
    && a.requested_at == b.requested_at
    && a.acquired_at == b.acquired_at

pub record Scheduler : Type 0 where
  pub max_queue_depth : ℕ
  pub registry : Option Registry
  pub waiting : List SlotRecord
  pub active : Dict String SlotRecord
  pub sequence : ℕ

-- `__init__`
unfoldable pub init : ℤ → Option Registry → Result Scheduler
init depth registry =
    if is_neg depth
    then err value_error
    else ok (record {
      max_queue_depth = pos_part depth;
      registry = registry;
      waiting = [];
      active = [];
      sequence = 0;
    })

abbrev pub unknown_node : String
unknown_node = "*"

-- the stripped names that are not empty, each once
unfoldable pub stripped_nodes : List String → List String
stripped_nodes [] = []
stripped_nodes (n ∷ ns) =
    let rest = stripped_nodes ns in
    let name = strip n in if name == "" || contains name rest then rest else name ∷ rest

-- `nodes or frozenset({"*"})`
abbrev pub or_unknown : List String → List String
or_unknown [] = unknown_node ∷ []
or_unknown ns = ns

unfoldable pub normalize_nodes : List String → List String
unfolding stripped_nodes
normalize_nodes ns = or_unknown (stripped_nodes ns)

unfoldable pub overlaps : List String → List String → Bool
overlaps first second =
    contains unknown_node first
    || contains unknown_node second
    || any (λ n. contains n second) first

-- Does an active record overlap?
unfoldable pub overlaps_active : List String → Dict String SlotRecord → Bool
overlaps_active nodes active = any (λ e. overlaps nodes e.1.selected_nodes) active

-- The waiters before the record's own entry: none may overlap.
unfoldable pub clear_ahead : SlotRecord → List SlotRecord → Bool
clear_ahead r [] = true
clear_ahead r (w ∷ ws) =
    let rest = clear_ahead r ws in
    if w.lease_id == r.lease_id
    then true
    else if overlaps r.selected_nodes w.selected_nodes
    then false
    else rest

unfoldable pub can_grant : SlotRecord → Scheduler → Bool
can_grant r s = not (overlaps_active r.selected_nodes s.active) && clear_ahead r s.waiting

-- What one critical section of `acquire` ends with: a lease, a wait, or an exception.
pub data Outcome : Type 0 where
  granted : SlotRecord → Outcome
  waits : SlotRecord → Outcome
  raised : Error → Outcome

unfoldable pub grant : SlotRecord → ℕ → Scheduler → Scheduler × Outcome
grant r now s =
    let g = record r { acquired_at = some now } in
    (record s { active = insert r.lease_id g s.active }, granted g)

abbrev pub prepend : SlotRecord → Option (List SlotRecord) → Option (List SlotRecord)
prepend w none = none
prepend w (some ws) = some (w ∷ ws)

-- `deque.remove`: the first equal entry; `none` where there is none
unfoldable pub remove_first : SlotRecord → List SlotRecord → Option (List SlotRecord)
remove_first r [] = none
remove_first r (w ∷ ws) = if record_beq w r then some ws else prepend w (remove_first r ws)

-- `_mark_queued`: the change of the registry, and the exception if it raises
abbrev pub marked : Scheduler → Result (Registry × ModelInstance) → Result Scheduler
marked s (ok (r, i)) = ok (record s { registry = some r })
marked s (err e) = err e

unfoldable pub mark_queued : String → Bool → ℕ → Scheduler → Result Scheduler
mark_queued id add now s = elim s.registry [
  | none ↦ ok s
  | some r ↦ marked s (if add then enqueue now id r else dequeue now id r)
]

-- The state after a step that may raise, and the exception.
abbrev pub settled : Scheduler → Result Scheduler → Scheduler × Option Error
settled s (ok t) = (t, none)
settled s (err e) = (s, some e)

-- `_remove_waiter`: nothing happens where the record is gone; the removal stays where
-- `dequeue_request` raises.
unfoldable pub remove_waiter : SlotRecord → ℕ → Scheduler → Scheduler × Option Error
remove_waiter r now s = elim (remove_first r s.waiting) [
  | none ↦ (s, none)
  | some rest ↦
      (let t = record s { waiting = rest } in settled t (mark_queued r.instance_id false now t))
]

-- The record is appended and counted as queued; where that raises it is taken out again.
unfoldable pub join_queue : SlotRecord → ℕ → Scheduler → Scheduler × Outcome
join_queue r now s =
    let t = record s { waiting = s.waiting ++ r ∷ [] } in
    elim (mark_queued r.instance_id true now t) [ ok u ↦ (u, waits r) | err e ↦ (s, raised e) ]

abbrev pub is_negative_timeout : Option ℤ → Bool
is_negative_timeout none = false
is_negative_timeout (some z) = is_neg z

-- The record of a request; its number is the one that the counter has reached.
unfoldable pub new_record : String → List String → String → ℕ → Scheduler → SlotRecord
new_record id nodes lease now s = record {
  lease_id = lease;
  instance_id = id;
  selected_nodes = normalize_nodes nodes;
  sequence = s.sequence;
  requested_at = now;
  acquired_at = none;
}

-- A new record is granted at once, refused where the queue is full, or queued.
unfoldable pub request : SlotRecord → ℕ → Scheduler → Scheduler × Outcome
request r now s =
    if can_grant r s
    then grant r now s
    else if leb s.max_queue_depth (length s.waiting)
    then (s, raised generation_queue_full)
    else join_queue r now s

-- `acquire` from its start to the first wait. `lease` is the fresh id of `uuid4`.
unfoldable pub start :
    String → List String → Option ℤ → Bool → String → ℕ → Scheduler → Scheduler × Outcome
start id nodes timeout cancelled lease now s =
    if is_negative_timeout timeout
    then (s, raised value_error)
    else if cancelled
    then (s, raised generation_slot_cancelled)
    else (let t = record s { sequence = s.sequence + 1 } in
        request (new_record id nodes lease now t) now t)

abbrev pub expired : Option ℕ → ℕ → Bool
expired none now = false
expired (some deadline) now = leb deadline now

-- What follows the removal of the waiter, unless that raised.
abbrev pub unless_raised :
    Scheduler × Option Error → (Scheduler → Scheduler × Outcome) → Scheduler × Outcome
unless_raised (s, some e) f = (s, raised e)
unless_raised (s, none) f = f s

-- One round of the loop of `acquire`, for a waiting record: from a wake-up to the next wait.
unfoldable pub poll : SlotRecord → Option ℕ → Bool → ℕ → Scheduler → Scheduler × Outcome
poll r deadline cancelled now s =
    if cancelled
    then unless_raised (remove_waiter r now s) (λ t. (t, raised generation_slot_cancelled))
    else if can_grant r s
    then unless_raised (remove_waiter r now s) (grant r now)
    else if expired deadline now
    then unless_raised (remove_waiter r now s) (λ t. (t, raised generation_slot_timeout))
    else (s, waits r)

-- `_release`: `False` where the lease is not active any more
unfoldable pub release : String → Scheduler → Scheduler × Bool
release lease s =
    if is_none (lookup lease s.active)
    then (s, false)
    else (record s { active = erase lease s.active }, true)
