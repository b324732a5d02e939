-- ===== src/Slots/Fifo.antt =====
-- First in, first out: a request does not overtake an older one that it overlaps.
use tokenity.Common.{
  ℕ, suc, ◌+◌, ◌≤◌, ◌<◌, ◌≡◌, inl, inr, sym, ap, subst, Bool, true, false, ◌==◌, All, All-map,
  All-append, Bool-cases, List, [], ◌∷◌, ◌++◌, Option, none, some, or_default, String, ℤ, string_eq,
  arith,
}
use tokenity.Slots.{
  SlotRecord, Scheduler, overlaps, can_grant, clear_ahead, grant, mark_queued, remove_first,
  remove_waiter, join_queue, start, poll, release, granted, new_record, request,
}
use tokenity.Slots.Calls.{Call, starts, polls, releases, find_waiter, woken, step, run}

-- The sequence numbers rise along the queue, from above `lo`.
abbrev pub Rising : ℕ → List SlotRecord → Type 0
Rising lo [] = Unit {0}
Rising lo (w ∷ ws) = (lo < w.sequence) × Rising w.sequence ws

-- The numbers rise along the queue, and none is above the counter.
unfoldable pub Ordered : ℕ → List SlotRecord → Type 0
Ordered n ws = Rising 0 ws × All (λ w. w.sequence ≤ n) ws

abbrev pub IsOrdered : Scheduler → Type 0
IsOrdered s = Ordered s.sequence s.waiting

Rising-mono : (lo hi : ℕ) (ws : List SlotRecord) → lo ≤ hi → Rising hi ws → Rising lo ws
Rising-mono lo hi [] h k = tt
Rising-mono lo hi (w ∷ ws) h k = (omega arith, k.1)

Rising-All : (lo : ℕ) (ws : List SlotRecord) → Rising lo ws → All (λ w. lo < w.sequence) ws
Rising-All lo [] h = tt
Rising-All lo (w ∷ ws) h = (h.0, All-map _ _ ws (λ v k. omega arith) (Rising-All w.sequence ws h.1))

Rising-append :
    (lo n : ℕ) (ws : List SlotRecord) (r : SlotRecord)
    → Rising lo ws
    → All (λ w. w.sequence < r.sequence) ws
    → lo < r.sequence
    → Rising lo (ws ++ r ∷ [])
Rising-append lo n [] r h k b = (b, tt)
Rising-append lo n (w ∷ ws) r h k b = (h.0, Rising-append w.sequence n ws r h.1 k.1 k.0)

-- The queue behind a removal: still rising, and a part of the old one.
Rising-remove_first :
    (lo : ℕ) (r : SlotRecord) (ws rest : List SlotRecord)
    → remove_first r ws ≡ some rest
    → Rising lo ws
    → Rising lo rest
unfolding remove_first
Rising-remove_first lo r [] rest e h = cc
Rising-remove_first lo r (w ∷ ws) rest e h = ground (
  arith,
  Rising-remove_first w.sequence r ws (or_default (remove_first r ws) []),
  Rising-mono lo w.sequence ws,
)

All-remove_first :
    (P : SlotRecord → Type 0) (r : SlotRecord) (ws rest : List SlotRecord)
    → remove_first r ws ≡ some rest
    → All P ws
    → All P rest
unfolding remove_first
All-remove_first P r [] rest e h = cc
All-remove_first P r (w ∷ ws) rest e h =
    ground (arith, All-remove_first P r ws (or_default (remove_first r ws) []))

Ordered-remove_first :
    (n : ℕ) (r : SlotRecord) (ws rest : List SlotRecord)
    → remove_first r ws ≡ some rest
    → Ordered n ws
    → Ordered n rest
unfolding Ordered
Ordered-remove_first n r ws rest e h =
    (Rising-remove_first 0 r ws rest e h.0, All-remove_first (λ w. w.sequence ≤ n) r ws rest e h.1)

Ordered-append :
    (n : ℕ) (r : SlotRecord) (ws : List SlotRecord)
    → r.sequence ≡ suc n
    → Ordered n ws
    → Ordered (suc n) (ws ++ r ∷ [])
unfolding Ordered
Ordered-append n r ws e h = (
  Rising-append 0 0 ws r h.0 (All-map _ _ ws (λ w k. omega arith) h.1) (omega arith),
  All-append _ ws (r ∷ []) (All-map _ _ ws (λ w k. omega arith) h.1) (omega arith, tt),
)

Ordered-suc : (n : ℕ) (ws : List SlotRecord) → Ordered n ws → Ordered (suc n) ws
unfolding Ordered
Ordered-suc n ws h = (h.0, All-map _ _ ws (λ w k. omega arith) h.1)

remove_waiter-IsOrdered :
    (r : SlotRecord) (now : ℕ) (s : Scheduler) → IsOrdered s → IsOrdered (remove_waiter r now s).0
unfolding remove_waiter mark_queued
remove_waiter-IsOrdered r now s h =
    ground (
      arith,
      Ordered-remove_first s.sequence r s.waiting (or_default (remove_first r s.waiting) []),
    )

poll-IsOrdered :
    (r : SlotRecord) (deadline : Option ℕ) (cancelled : Bool) (now : ℕ) (s : Scheduler)
    → IsOrdered s
    → IsOrdered (poll r deadline cancelled now s).0
unfolding poll grant
poll-IsOrdered r deadline cancelled now s h = ground (arith, remove_waiter-IsOrdered r now s h)

start-IsOrdered :
    (id : String) (nodes : List String) (timeout : Option ℤ) (cancelled : Bool) (lease : String)
    (now : ℕ) (s : Scheduler)
    → IsOrdered s
    → IsOrdered (start id nodes timeout cancelled lease now s).0
unfolding start new_record request grant join_queue mark_queued
start-IsOrdered id nodes timeout cancelled lease now s h =
    let t = record s { sequence = s.sequence + 1 } in
    ground (
      arith,
      Ordered-append s.sequence (new_record id nodes lease now t) s.waiting,
      Ordered-suc s.sequence s.waiting h,
    )

step-IsOrdered : (s : Scheduler) (c : Call) → IsOrdered s → IsOrdered (step s c)
unfolding step release
step-IsOrdered s (starts id nodes timeout cancelled lease now) h =
    start-IsOrdered id nodes timeout cancelled lease now s h
step-IsOrdered s (polls lease deadline cancelled now) h = go (find_waiter lease s.waiting)
  where
    go : (o : Option SlotRecord) → IsOrdered (woken deadline cancelled now s o)
    go none = h
    go (some r) = poll-IsOrdered r deadline cancelled now s h
step-IsOrdered s (releases lease) h = ground arith

-- In every run the queue is in the order of the requests.
pub run-IsOrdered : (s : Scheduler) (cs : List Call) → IsOrdered s → IsOrdered (run s cs)
unfolding run
run-IsOrdered s [] h = h
run-IsOrdered s (c ∷ cs) h = run-IsOrdered (step s c) cs (step-IsOrdered s c h)

clear_ahead_older :
    (lo : ℕ) (r : SlotRecord) (ws : List SlotRecord)
    → Rising lo ws
    → find_waiter r.lease_id ws ≡ some r
    → clear_ahead r ws ≡ true
    → All (λ w. w.sequence < r.sequence → overlaps r.selected_nodes w.selected_nodes ≡ false) ws
unfolding clear_ahead find_waiter
clear_ahead_older lo r [] h f c = tt
clear_ahead_older lo r (w ∷ ws) h f c = elim (Bool-cases (w.lease_id == r.lease_id)) [
  | inl e ↦
      let same : w ≡ r = ground arith in
      (
        (λ older. absurd (omega (arith, ap (λ (v : SlotRecord). v.sequence) same))),
        All-map _ _ ws
            (λ v younger older. absurd (omega (arith, ap (λ (z : SlotRecord). z.sequence) same)))
            (Rising-All w.sequence ws h.1),
      )
  | inr e ↦
      ((λ older. ground arith), clear_ahead_older w.sequence r ws h.1 (ground arith) (ground arith))
]

-- A waiting request is granted only when none of the requests before it in the queue overlaps it.
pub no_overtaking :
    (r g : SlotRecord) (deadline : Option ℕ) (cancelled : Bool) (now : ℕ) (s : Scheduler)
    → IsOrdered s
    → find_waiter r.lease_id s.waiting ≡ some r
    → (poll r deadline cancelled now s).1 ≡ granted g
    → All
        (λ w. w.sequence < r.sequence → overlaps r.selected_nodes w.selected_nodes ≡ false)
        s.waiting
unfolding poll can_grant
no_overtaking r g deadline cancelled now s ordered f h =
    clear_ahead_older 0 r s.waiting (unfold Ordered in ordered.0) f (ground arith)

clear_ahead-All :
    (r : SlotRecord) (ws : List SlotRecord)
    → find_waiter r.lease_id ws ≡ none
    → clear_ahead r ws ≡ true
    → All (λ w. overlaps r.selected_nodes w.selected_nodes ≡ false) ws
unfolding clear_ahead find_waiter
clear_ahead-All r [] f c = tt
clear_ahead-All r (w ∷ ws) f c = ground (arith, clear_ahead-All r ws)

request_granted :
    (r g : SlotRecord) (now : ℕ) (s : Scheduler)
    → (request r now s).1 ≡ granted g
    → (clear_ahead r s.waiting ≡ true) × (g.selected_nodes ≡ r.selected_nodes)
unfolding request can_grant grant join_queue
request_granted r g now s h = ground arith

start_granted :
    (id lease : String) (nodes : List String) (timeout : Option ℤ) (cancelled : Bool) (now : ℕ)
    (s : Scheduler) (g : SlotRecord)
    → (start id nodes timeout cancelled lease now s).1 ≡ granted g
    → let t = record s { sequence = s.sequence + 1 } in
      (request (new_record id nodes lease now t) now t).1 ≡ granted g
unfolding start
start_granted id lease nodes timeout cancelled now s g h = ground arith

-- A new request, with a fresh lease id, is granted at once only when no waiting request overlaps
-- its nodes.
pub no_barging :
    (id lease : String) (nodes : List String) (timeout : Option ℤ) (cancelled : Bool) (now : ℕ)
    (s : Scheduler) (g : SlotRecord)
    → find_waiter lease s.waiting ≡ none
    → (start id nodes timeout cancelled lease now s).1 ≡ granted g
    → All (λ w. overlaps g.selected_nodes w.selected_nodes ≡ false) s.waiting
unfolding new_record
no_barging id lease nodes timeout cancelled now s g fresh h =
    let t = record s { sequence = s.sequence + 1 } in
    let r = new_record id nodes lease now t in
    let (ahead, same) =
      request_granted r g now t (start_granted id lease nodes timeout cancelled now s g h) in
    subst (λ ns. All (λ w. overlaps ns w.selected_nodes ≡ false) s.waiting) (sym same)
      (clear_ahead-All r s.waiting fresh ahead)
