-- ===== src/Agent/Gateway/Balance.antt =====
-- The slots and leases of a chat request, `gateway_chat_completions` of
-- tokenity/node_agent/agent.py: what it holds when it ends.
use tokenity.Common.{
  true, false, ℕ, zero, suc, ◌≡◌, refl, ◌∙◌, ap, Bool, if◌then◌else◌, ◌&&◌, not, leb, ◌==◌, eq_iff,
  String, string_eq, List, [], ◌∷◌, ◌++◌, some, inl, inr, Bool-cases,
}
use tokenity.Errors.{Result, ok, err}
use tokenity.Instance.{ModelInstance}
use tokenity.Registry.{Registry, acquire}
use tokenity.Router.{Cursor, resolve}
use tokenity.Agent.Gateway.{
  SlotAnswer, granted, queue_full, timed_out, cancelled, conflict, OpenAnswer, disconnected,
  interrupted, failed, status, Env, Target, Effect, holds_slot, frees_slot, holds_lease,
  frees_lease, marks_unhealthy, Loop, Ending, responds, http_error, raises, raises_unsent, endless,
  Next, next_target, again, ends, resolved, resolve_target, needs_another, after_failure,
  after_open, after_payload, after_lease, after_slot, try_instance, or_next_target, or_leave, round,
  follow, failover, is_empty, release_gateway_resources, attempted, with_slot, with_lease, marked,
}

abbrev pub drop_one : String → List String → List String
drop_one i [] = []
drop_one i (j ∷ js) = if j == i then js else j ∷ drop_one i js

-- The instances whose slots are held after the effects.
abbrev pub held_slots : List Effect → List String
held_slots [] = []
held_slots (holds_slot i ∷ t) = i ∷ held_slots t
held_slots (frees_slot i ∷ t) = drop_one i (held_slots t)
held_slots (holds_lease i ∷ t) = held_slots t
held_slots (frees_lease i ∷ t) = held_slots t
held_slots (marks_unhealthy i ∷ t) = held_slots t

-- Likewise the leases.
abbrev pub held_leases : List Effect → List String
held_leases [] = []
held_leases (holds_slot i ∷ t) = held_leases t
held_leases (frees_slot i ∷ t) = held_leases t
held_leases (holds_lease i ∷ t) = i ∷ held_leases t
held_leases (frees_lease i ∷ t) = drop_one i (held_leases t)
held_leases (marks_unhealthy i ∷ t) = held_leases t

-- Nothing is held.
unfoldable pub IsIdle : Loop → Type 0
IsIdle s = (held_slots s.trace ≡ []) × (held_leases s.trace ≡ [])

-- One slot and one lease of the instance are held, and nothing else.
pub Holds : ModelInstance → Loop → Type 0
Holds i s = (held_slots s.trace ≡ i.instance_id ∷ []) × (held_leases s.trace ≡ i.instance_id ∷ [])

-- A response holds what it goes on to use, an error nothing, and an exception from building the payload
-- what nobody gives back.
unfoldable pub IsSettled : Ending → Loop → Type 0
unfolding IsIdle Holds
IsSettled (responds i) s = Holds i s
IsSettled (http_error code) s = IsIdle s
IsSettled raises s = IsIdle s
IsSettled (raises_unsent i) s = Holds i s
IsSettled endless s = IsIdle s

abbrev NextIsSettled : Next → Type 0
NextIsSettled (next_target s) = IsIdle s
NextIsSettled (again s) = IsIdle s
NextIsSettled (ends e s) = IsSettled e s

dropped : (i : String) → drop_one i (i ∷ []) ≡ []
dropped i = rw ((eq_iff i i).1 refl)

or_next_target-IsIdle :
    (s : Loop) (m : Result (Cursor × ModelInstance))
    → IsIdle s
    → NextIsSettled (or_next_target s (resolved s m))
unfolding IsIdle
or_next_target-IsIdle s (err e) h = h
or_next_target-IsIdle s (ok (c, i)) h = h

or_leave-IsIdle :
    (s : Loop) (go : Loop → Next) (m : Result (Cursor × ModelInstance))
    → ((s' : Loop) → IsIdle s' → NextIsSettled (go s'))
    → IsIdle s
    → NextIsSettled (or_leave s go (resolved s m))
unfolding IsIdle
or_leave-IsIdle s go (err e) k h = h
or_leave-IsIdle s go (ok (c, i)) k h = k _ h

module _ (env : Env) (excluded : List String) (exact : Bool) where
  abbrev target_of : Target → Loop → Result (Cursor × ModelInstance)
  target_of t s =
      resolve t.model_id (some t.revision) (s.attempted_instances ++ excluded)
        (env.registry s.calls) (env.cursor s.calls)

  after_failure-IsSettled :
      (t : Target) (s : Loop) → IsIdle s → NextIsSettled (after_failure env excluded exact t s)
  unfolding after_failure resolve_target IsIdle
  after_failure-IsSettled t s h = elim (Bool-cases exact) [
    | inl y ↦ rw y h
    | inr n ↦ rw n (or_next_target-IsIdle (marked s) (target_of t (marked s)) h)
  ]

  freed : (s : Loop) → Holds s.selected s → IsIdle (release_gateway_resources s)
  unfolding Holds IsIdle
  freed s h = (
    ap (drop_one s.selected.instance_id) h.0 ∙ dropped s.selected.instance_id,
    ap (drop_one s.selected.instance_id) h.1 ∙ dropped s.selected.instance_id,
  )

  after_open-IsSettled :
      (t : Target) (a : OpenAnswer) (s : Loop)
      → Holds s.selected s
      → NextIsSettled (after_open env excluded exact t a s)
  unfolding after_open IsSettled
  after_open-IsSettled t disconnected s h = freed s h
  after_open-IsSettled t interrupted s h = freed s h
  after_open-IsSettled t failed s h =
      after_failure-IsSettled t (release_gateway_resources s) (freed s h)
  after_open-IsSettled t (status code) s h = elim (Bool-cases (leb 500 code)) [
    | inl y ↦ rw y (after_failure-IsSettled t (release_gateway_resources s) (freed s h))
    | inr n ↦ rw n h
  ]

  after_payload-IsSettled :
      (t : Target) (b : Bool) (s : Loop)
      → Holds s.selected s
      → NextIsSettled (after_payload env excluded exact t b s)
  unfolding IsSettled
  after_payload-IsSettled t true s h = after_open-IsSettled t (env.opens s.calls) s h
  after_payload-IsSettled t false s h = h

  after_lease-IsSettled :
      (t : Target) (s : Loop) (m : Result (Registry × ModelInstance))
      → held_slots s.trace ≡ s.selected.instance_id ∷ []
      → held_leases s.trace ≡ []
      → NextIsSettled (after_lease env excluded exact t s m)
  unfolding after_lease IsSettled IsIdle Holds
  after_lease-IsSettled t s (err e) h k =
      (ap (drop_one s.selected.instance_id) h ∙ dropped s.selected.instance_id, k)
  after_lease-IsSettled t s (ok (r, i)) h k =
      after_payload-IsSettled t (env.encodes s.calls) (with_lease s)
        (h, ap (λ is. s.selected.instance_id ∷ is) k)

  after_slot-IsSettled :
      (t : Target) (a : SlotAnswer) (s : Loop)
      → IsIdle s
      → NextIsSettled (after_slot env excluded exact t a s)
  unfolding after_slot IsSettled IsIdle
  after_slot-IsSettled t queue_full s h = h
  after_slot-IsSettled t timed_out s h = h
  after_slot-IsSettled t cancelled s h = h
  after_slot-IsSettled t conflict s h = h
  after_slot-IsSettled t granted s h =
      after_lease-IsSettled t (with_slot s)
        (acquire (env.now s.calls) s.selected.instance_id (env.registry s.calls))
        (ap (λ is. s.selected.instance_id ∷ is) h.0) h.1

  try_instance-IsSettled :
      (t : Target) (s : Loop) → IsIdle s → NextIsSettled (try_instance env excluded exact t s)
  unfolding try_instance IsIdle
  try_instance-IsSettled t s h = elim (Bool-cases (exact && not (is_empty s.attempted_instances))) [
    | inl y ↦ rw y h
    | inr n ↦ rw n (after_slot-IsSettled t (env.slot s.calls) (attempted s) h)
  ]

  round-IsSettled :
      (t : Target) (s : Loop) → IsIdle s → NextIsSettled (round env excluded exact t s)
  unfolding round resolve_target
  round-IsSettled t s h = elim (Bool-cases (needs_another env excluded exact t s)) [
    | inl y ↦ rw y (
        or_leave-IsIdle s (try_instance env excluded exact t) (target_of t s)
          (try_instance-IsSettled t) h)
    | inr n ↦ rw n (try_instance-IsSettled t s h)
  ]

  follow-IsSettled :
      (leave stay : Loop → Ending × Loop) (m : Next)
      → ((s : Loop) → IsIdle s → IsSettled (leave s).0 (leave s).1)
      → ((s : Loop) → IsIdle s → IsSettled (stay s).0 (stay s).1)
      → NextIsSettled m
      → IsSettled (follow leave stay m).0 (follow leave stay m).1
  follow-IsSettled leave stay (next_target s) l k h = l s h
  follow-IsSettled leave stay (again s) l k h = k s h
  follow-IsSettled leave stay (ends e s) l k h = h

  -- Whatever the request meets, for any targets, if it began with nothing: where it ends with a
  -- response, it holds one slot and one lease of the instance that responds and nothing else; where it
  -- ends with an HTTP error, or with an exception other than one from building the payload, it holds
  -- nothing; and where building the payload for an instance raises, it ends still holding the slot and
  -- the lease of that instance.
  pub failover-IsSettled :
      (n : ℕ) (ts : List Target) (s : Loop)
      → IsIdle s
      → IsSettled (failover env excluded exact n ts s).0 (failover env excluded exact n ts s).1
  unfolding failover IsSettled
  failover-IsSettled n [] s h = h
  failover-IsSettled zero (t ∷ ts) s h =
      follow-IsSettled (failover env excluded exact zero ts) (λ s'. (endless, s'))
        (round env excluded exact t s) (failover-IsSettled zero ts) (λ s' k. k)
        (round-IsSettled t s h)
  failover-IsSettled (suc n) (t ∷ ts) s h =
      follow-IsSettled (failover env excluded exact (suc n) ts)
        (failover env excluded exact n (t ∷ ts)) (round env excluded exact t s)
        (failover-IsSettled (suc n) ts) (failover-IsSettled n (t ∷ ts)) (round-IsSettled t s h)
