-- ===== src/Slots/Mirror.antt =====
-- The registry's queue counters mirror the queue, so a waiter whose turn has come gets its lease.
use tokenity.Common.{
  ℕ, ◌+◌, ◌≡◌, inl, inr, refl, ◌∙◌, ap, subst, Bool, true, false, if◌then◌else◌, ◌==◌, Option-cases,
  List, [], ◌∷◌, ◌++◌, Option, none, some, or_default, String, lookup, lookup-insert, ℤ, string_eq,
  option_eq, arith, eq_iff, list_beq_refl, beq_refl, nat_eq,
}
use tokenity.Errors.{ok, Result-cases}
use tokenity.Instance.{ModelInstance}
use tokenity.Registry.{Registry, enqueue, dequeue}
use tokenity.Registry.Counters.{queued_at, enqueue-ok, dequeue-ok, dequeue_total}
use tokenity.Slots.{
  SlotRecord, Scheduler, overlaps_active, can_grant, clear_ahead, grant, mark_queued, remove_first,
  remove_waiter, join_queue, start, poll, release, granted, new_record, request,
}
use tokenity.Slots.Calls.{Call, starts, polls, releases, find_waiter, woken, step, run}

-- How many requests wait for the instance.
unfoldable pub waiting_for : String → List SlotRecord → ℕ
waiting_for id [] = 0
waiting_for id (w ∷ ws) = waiting_for id ws + (if w.instance_id == id then 1 else 0)

-- For every id, the counter in the registry is the number of waiters.
unfoldable pub Mirrors : Option Registry → List SlotRecord → Type 0
Mirrors none ws = Unit {0}
Mirrors (some r) ws = (id : String) → queued_at (lookup id r) ≡ waiting_for id ws

Mirrors-none : (ws : List SlotRecord) → Mirrors none ws
unfolding Mirrors
Mirrors-none ws = tt

waiting_for-append :
    (id : String) (ws : List SlotRecord) (r : SlotRecord)
    → waiting_for id (ws ++ r ∷ []) ≡ waiting_for id ws + (if r.instance_id == id then 1 else 0)
unfolding waiting_for
waiting_for-append id [] r = refl
waiting_for-append id (w ∷ ws) r = omega (arith, waiting_for-append id ws r)

waiting_for-remove_first :
    (id : String) (r : SlotRecord) (ws rest : List SlotRecord)
    → remove_first r ws ≡ some rest
    → waiting_for id ws ≡ waiting_for id rest + (if r.instance_id == id then 1 else 0)
unfolding waiting_for remove_first
waiting_for-remove_first id r [] rest e = cc
waiting_for-remove_first id r (w ∷ ws) rest e = ground (
  arith,
  waiting_for-remove_first id r ws (or_default (remove_first r ws) []),
  eq_iff w.instance_id r.instance_id,
)

Mirrors-enqueue :
    (now : ℕ) (r : SlotRecord) (g t : Registry) (i : ModelInstance) (ws : List SlotRecord)
    → enqueue now r.instance_id g ≡ ok (t, i)
    → Mirrors (some g) ws
    → Mirrors (some t) (ws ++ r ∷ [])
unfolding Mirrors
Mirrors-enqueue now r g t i ws e h = λ id.
    let (same, count) = enqueue-ok now r.instance_id g t i e in
    rw same (
      ground (
        arith,
        lookup-insert r.instance_id id i g,
        count,
        waiting_for-append id ws r,
        h id,
        h r.instance_id,
        eq_iff r.instance_id id,
      ))

Mirrors-dequeue :
    (now : ℕ) (r : SlotRecord) (g t : Registry) (i : ModelInstance) (ws rest : List SlotRecord)
    → remove_first r ws ≡ some rest
    → dequeue now r.instance_id g ≡ ok (t, i)
    → Mirrors (some g) ws
    → Mirrors (some t) rest
unfolding Mirrors
Mirrors-dequeue now r g t i ws rest f e h = λ id.
    let (same, count) = dequeue-ok now r.instance_id g t i e in
    rw same (
      ground (
        arith,
        lookup-insert r.instance_id id i g,
        count,
        waiting_for-remove_first id r ws rest f,
        h id,
        h r.instance_id,
        eq_iff r.instance_id id,
      ))

abbrev pub IsMirrored : Scheduler → Type 0
IsMirrored s = Mirrors s.registry s.waiting

-- With the counters right, the dequeueing of a waiter cannot raise.
unmark_total :
    (r : SlotRecord) (now : ℕ) (s : Scheduler) (rest : List SlotRecord)
    → remove_first r s.waiting ≡ some rest
    → IsMirrored s
    → (t : Scheduler) × (mark_queued r.instance_id false now (record s { waiting = rest }) ≡ ok t)
      × (t.waiting ≡ rest)
      × (t.active ≡ s.active)
      × (t.max_queue_depth ≡ s.max_queue_depth)
      × IsMirrored t
unfolding mark_queued
unmark_total r now s rest f h = go s.registry refl
  where
    go :
        (o : Option Registry)
        → s.registry ≡ o
        → (t : Scheduler) × (mark_queued r.instance_id false now (record s { waiting = rest })
            ≡ ok t)
          × (t.waiting ≡ rest)
          × (t.active ≡ s.active)
          × (t.max_queue_depth ≡ s.max_queue_depth)
          × IsMirrored t
    go none e = (
      record s { waiting = rest; registry = none },
      ground arith,
      refl,
      refl,
      refl,
      Mirrors-none rest,
    )
    go (some g) e =
        let here : Mirrors (some g) s.waiting = subst (λ o. Mirrors o s.waiting) e h in
        let ((t, i), d) = dequeue_total now r.instance_id g (
          unfold Mirrors in
          ground (
            arith,
            here r.instance_id,
            waiting_for-remove_first r.instance_id r s.waiting rest f,
            eq_iff r.instance_id r.instance_id,
          )) in
        (
          record s { waiting = rest; registry = some t },
          rw (e, mark_queued) (rw d),
          refl,
          refl,
          refl,
          Mirrors-dequeue now r g t i s.waiting rest f d here,
        )

remove_waiter_total :
    (r : SlotRecord) (now : ℕ) (s : Scheduler)
    → IsMirrored s
    → ((remove_waiter r now s).1 ≡ none)
      × IsMirrored (remove_waiter r now s).0
      × ((remove_waiter r now s).0.active ≡ s.active)
unfolding remove_waiter
remove_waiter_total r now s h = elim (Option-cases (remove_first r s.waiting)) [
  | inl e ↦ rw (e, remove_waiter) (refl, h, refl)
  | inr (rest, e) ↦
      (let (t, m, same, active, depth, mirrored) = unmark_total r now s rest e h in
        rw (e, remove_waiter) (rw m (refl, mirrored, active)))
]

poll-IsMirrored :
    (r : SlotRecord) (deadline : Option ℕ) (cancelled : Bool) (now : ℕ) (s : Scheduler)
    → IsMirrored s
    → IsMirrored (poll r deadline cancelled now s).0
unfolding poll grant
poll-IsMirrored r deadline cancelled now s h = ground (arith, remove_waiter_total r now s h)

join_queue-IsMirrored :
    (r : SlotRecord) (now : ℕ) (s : Scheduler) → IsMirrored s → IsMirrored (join_queue r now s).0
unfolding join_queue mark_queued
join_queue-IsMirrored r now s h = elim (Option-cases s.registry) [
  | inl e ↦ ground (arith, Mirrors-none (s.waiting ++ r ∷ []))
  | inr (g, e) ↦ (elim (Result-cases (enqueue now r.instance_id g)) [
    | inl (x, d) ↦ ground arith
    | inr ((t, i), d) ↦
        ground
          (arith, Mirrors-enqueue now r g t i s.waiting d (subst (λ o. Mirrors o s.waiting) e h))
  ])
]

start-IsMirrored :
    (id : String) (nodes : List String) (timeout : Option ℤ) (cancelled : Bool) (lease : String)
    (now : ℕ) (s : Scheduler)
    → IsMirrored s
    → IsMirrored (start id nodes timeout cancelled lease now s).0
unfolding start request grant
start-IsMirrored id nodes timeout cancelled lease now s h =
    let t = record s { sequence = s.sequence + 1 } in
    ground (arith, join_queue-IsMirrored (new_record id nodes lease now t) now t h)

step-IsMirrored : (s : Scheduler) (c : Call) → IsMirrored s → IsMirrored (step s c)
unfolding step release
step-IsMirrored s (starts id nodes timeout cancelled lease now) h =
    start-IsMirrored id nodes timeout cancelled lease now s h
step-IsMirrored s (polls lease deadline cancelled now) h = go (find_waiter lease s.waiting)
  where
    go : (o : Option SlotRecord) → IsMirrored (woken deadline cancelled now s o)
    go none = h
    go (some r) = poll-IsMirrored r deadline cancelled now s h
step-IsMirrored s (releases lease) h = ground arith

-- Where the queued counter of each registered instance is the number of its waiting requests, and no
-- request waits for an instance that is not registered, the same holds after every sequence of starts,
-- polls and releases of the scheduler. Other calls of the registry, such as the removal of an instance
-- that has waiting requests, are not among these.
pub run-IsMirrored : (s : Scheduler) (cs : List Call) → IsMirrored s → IsMirrored (run s cs)
unfolding run
run-IsMirrored s [] h = h
run-IsMirrored s (c ∷ cs) h = run-IsMirrored (step s c) cs (step-IsMirrored s c h)

option_refl : (o : Option ℕ) → (o == o) ≡ true
option_refl o = beq_refl o

remove_first_head : (w : SlotRecord) (ws : List SlotRecord) → remove_first w (w ∷ ws) ≡ some ws
unfolding remove_first
remove_first_head w ws = ground (
  arith,
  eq_iff w.lease_id w.lease_id,
  eq_iff w.instance_id w.instance_id,
  list_beq_refl w.selected_nodes,
  option_refl w.acquired_at,
)

remove_oldest :
    (w : SlotRecord) (ws : List SlotRecord) (now : ℕ) (s : Scheduler)
    → IsMirrored s
    → s.waiting ≡ w ∷ ws
    → ((remove_waiter w now s).1 ≡ none) × ((remove_waiter w now s).0.waiting ≡ ws)
unfolding remove_waiter
remove_oldest w ws now s h first =
    let gone : remove_first w s.waiting ≡ some ws =
      ap (remove_first w) first ∙ remove_first_head w ws in
    let (t, m, same, active, depth, mirrored) = unmark_total w now s ws gone h in ground arith

oldest_can_grant :
    (w : SlotRecord) (ws : List SlotRecord) (s : Scheduler)
    → s.waiting ≡ w ∷ ws
    → overlaps_active w.selected_nodes s.active ≡ false
    → can_grant w s ≡ true
unfolding can_grant clear_ahead
oldest_can_grant w ws s first free = ground (arith, eq_iff w.lease_id w.lease_id)

-- Progress: where the counters mirror the queue and no active lease overlaps the oldest waiter, its
-- next wake-up before a cancellation gives it the lease and takes exactly it out of the queue.
pub oldest_granted :
    (w : SlotRecord) (ws : List SlotRecord) (deadline : Option ℕ) (now : ℕ) (s : Scheduler)
    → IsMirrored s
    → s.waiting ≡ w ∷ ws
    → overlaps_active w.selected_nodes s.active ≡ false
    → ((poll w deadline false now s).1 ≡ granted (record w { acquired_at = some now }))
      × ((poll w deadline false now s).0.waiting ≡ ws)
      × (lookup w.lease_id (poll w deadline false now s).0.active
          ≡ some (record w { acquired_at = some now }))
unfolding poll grant
oldest_granted w ws deadline now s h first free =
    let t = (remove_waiter w now s).0 in
    ground (
      arith,
      oldest_can_grant w ws s first free,
      remove_oldest w ws now s h first,
      lookup-insert w.lease_id w.lease_id (record w { acquired_at = some now }) t.active,
      eq_iff w.lease_id w.lease_id,
    )
