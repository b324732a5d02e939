-- ===== src/Agent/Gateway.antt =====
-- `gateway_chat_completions` of tokenity/node_agent/agent.py up to its response: the instances that a
-- chat request is tried on, one after the other.
--
-- The registry, the router's cursor, the slot and the connection are what the request finds at each
-- of its calls, in their order: they are the argument `Env`, so that other requests may do anything
-- in between. What the request itself changes is the trace of its effects.
pub mod Balance
pub mod Ends
mod Tests
use tokenity.Common.{
  ℕ, zero, suc, ◌+◌, Bool, true, false, if◌then◌else◌, ◌&&◌, ◌||◌, not, ltb, leb, ◌==◌, contains,
  String, string_eq, List, [], ◌∷◌, ◌++◌, Option, none, some, or_default,
}
use tokenity.Errors.{Result, ok, err}
use tokenity.Instance.{ModelInstance}
use tokenity.Registry.{Registry, acquire}
use tokenity.Router.{Cursor, resolve, revision_of}

-- The slot, or an exception of `_acquire_generation_slot`: `conflict` is `InstanceConflict`, which no
-- clause catches.
pub data SlotAnswer : Type 0 where
  granted queue_full timed_out cancelled conflict : SlotAnswer

-- What opening the connection gives: the client is gone, an exception that is no `Exception`, another
-- exception, or the status of the upstream response.
pub data OpenAnswer : Type 0 where
  disconnected interrupted failed : OpenAnswer
  status : ℕ → OpenAnswer

-- What the request finds at its n-th call. `encodes` says whether the payload for the instance can be
-- built and written as UTF-8: a text with half a surrogate pair cannot.
pub record Env : Type 0 where
  pub registry : ℕ → Registry
  pub cursor : ℕ → Cursor
  pub slot : ℕ → SlotAnswer
  pub encodes : ℕ → Bool
  pub opens : ℕ → OpenAnswer
  pub now : ℕ → ℕ

-- An entry of `fallback_targets`.
pub record Target : Type 0 where
  pub model_id : String
  pub revision : String
  pub kind : String

-- What the request does to what it shares with others.
pub data Effect : Type 0 where
  holds_slot frees_slot holds_lease frees_lease marks_unhealthy : String → Effect

-- The variables of the loop, the number of calls so far, and the effects, the latest first.
pub record Loop : Type 0 where
  pub selected : ModelInstance
  pub attempted_instances : List String
  pub open_failures : ℕ
  pub calls : ℕ
  pub trace : List Effect

-- How the request ends: with a response of the selected instance, with an HTTP error, with an
-- exception that passes through, or, in the model only, without an end. An exception from building the
-- payload is one of its own.
pub data Ending : Type 0 where
  responds : ModelInstance → Ending
  http_error : ℕ → Ending
  raises endless : Ending
  raises_unsent : ModelInstance → Ending

-- What one round of the inner loop leads to.
pub data Next : Type 0 where
  next_target again : Loop → Next
  ends : Ending → Loop → Next

abbrev pub is_empty : List String → Bool
is_empty [] = true
is_empty (x ∷ xs) = false

-- The branch of `instance_router.resolve`.
abbrev pub resolved : Loop → Result (Cursor × ModelInstance) → Option Loop
resolved s (err e) = none
resolved s (ok (c, i)) = some (record s { selected = i; calls = s.calls + 1 })

abbrev pub started : ModelInstance → Loop
started primary = record {
  selected = primary;
  attempted_instances = [];
  open_failures = 0;
  calls = 0;
  trace = [];
}

-- `release_gateway_resources`, called for the first time
abbrev pub release_gateway_resources : Loop → Loop
release_gateway_resources s = record s {
  trace = frees_slot s.selected.instance_id ∷ frees_lease s.selected.instance_id ∷ s.trace;
}

abbrev pub or_next_target : Loop → Option Loop → Next
or_next_target s none = next_target s
or_next_target s (some s') = again s'

abbrev pub or_leave : Loop → (Loop → Next) → Option Loop → Next
or_leave s go none = next_target s
or_leave s go (some s') = go s'

abbrev pub follow : (Loop → Ending × Loop) → (Loop → Ending × Loop) → Next → Ending × Loop
follow leave stay (next_target s) = leave s
follow leave stay (again s) = stay s
follow leave stay (ends e s) = (e, s)

-- The writes of one attempt: the instance counts as tried; its slot is held; its lease is held; it is
-- marked as not healthy.
abbrev pub attempted : Loop → Loop
attempted s = record s {
  attempted_instances = s.selected.instance_id ∷ s.attempted_instances;
  calls = s.calls + 1;
}

abbrev pub with_slot : Loop → Loop
with_slot s = record s { calls = s.calls + 1; trace = holds_slot s.selected.instance_id ∷ s.trace }

abbrev pub with_lease : Loop → Loop
with_lease s = record s {
  calls = s.calls + 1;
  trace = holds_lease s.selected.instance_id ∷ s.trace;
}

abbrev pub marked : Loop → Loop
marked s = record s {
  open_failures = s.open_failures + 1;
  trace = marks_unhealthy s.selected.instance_id ∷ s.trace;
}

module _ (env : Env) (excluded : List String) (exact_instance_request : Bool) where
  unfoldable pub resolve_target : Target → Loop → Option Loop
  resolve_target t s = resolved s (
      resolve t.model_id (some t.revision) (s.attempted_instances ++ excluded)
        (env.registry s.calls) (env.cursor s.calls))

  -- Is the instance at hand another one than the target asks for, or tried already?
  unfoldable pub needs_another : Target → Loop → Bool
  needs_another t s =
      not (s.selected.requested_model_id == t.model_id)
      || not (revision_of s.selected == t.revision)
      || contains s.selected.instance_id s.attempted_instances

  -- An opening that failed: the instance is not healthy, and another one of the target is tried.
  unfoldable pub after_failure : Target → Loop → Next
  after_failure t s =
      if exact_instance_request
      then next_target (marked s)
      else or_next_target (marked s) (resolve_target t (marked s))

  unfoldable pub after_open : Target → OpenAnswer → Loop → Next
  unfolding after_failure
  after_open t disconnected s = ends (http_error 499) (release_gateway_resources s)
  after_open t interrupted s = ends raises (release_gateway_resources s)
  after_open t failed s = after_failure t (release_gateway_resources s)
  after_open t (status code) s =
      if leb 500 code
      then after_failure t (release_gateway_resources s)
      else ends (responds s.selected) s

  -- The payload, which is built before the `try` whose handler gives the slot and the lease back.
  abbrev pub after_payload : Target → Bool → Loop → Next
  after_payload t true s = after_open t (env.opens s.calls) s
  after_payload t false s = ends (raises_unsent s.selected) s

  -- The lease of the instance, and what follows.
  unfoldable pub after_lease : Target → Loop → Result (Registry × ModelInstance) → Next
  unfolding after_open
  after_lease t s (err e) =
      ends (http_error 409) (record s { trace = frees_slot s.selected.instance_id ∷ s.trace })
  after_lease t s (ok (r, i)) = after_payload t (env.encodes s.calls) (with_lease s)

  unfoldable pub after_slot : Target → SlotAnswer → Loop → Next
  unfolding after_lease
  after_slot t queue_full s = ends (http_error 429) s
  after_slot t timed_out s = ends (http_error 429) s
  after_slot t cancelled s = ends (http_error 499) s
  after_slot t conflict s = ends raises s
  after_slot t granted s =
      after_lease t (with_slot s)
        (acquire (env.now s.calls) s.selected.instance_id (env.registry s.calls))

  -- One instance is tried, unless only one may be.
  unfoldable pub try_instance : Target → Loop → Next
  unfolding after_slot
  try_instance t s =
      if exact_instance_request && not (is_empty s.attempted_instances)
      then next_target s
      else after_slot t (env.slot s.calls) (attempted s)

  -- The body of the inner loop.
  unfoldable pub round : Target → Loop → Next
  unfolding try_instance needs_another resolve_target
  round t s = or_leave s (try_instance t) (if needs_another t s then resolve_target t s else some s)

  -- The two loops; the fuel counts how often the inner loop goes round again.
  unfoldable pub failover : ℕ → List Target → Loop → Ending × Loop
  failover n [] s = (http_error 502, s)
  failover zero (t ∷ ts) s = follow (failover zero ts) (λ s'. (endless, s')) (round t s)
  failover (suc n) (t ∷ ts) s = follow (failover (suc n) ts) (failover n (t ∷ ts)) (round t s)
