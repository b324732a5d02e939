-- ===== src/Slots/Exclusion.antt =====
-- No two active leases overlap, and the queue keeps its bound.
use tokenity.Common.{
  ℕ, ◌+◌, ◌≤◌, ◌<◌, ◌≡◌, refl, ◌∙◌, Bool, false, ◌==◌, ◌||◌, any, contains, All, length,
  length-append, List, [], ◌∷◌, Option, none, some, or_default, String, Dict, lookup, insert, erase,
  lookup-erase, ℤ, string_eq, arith, eq_iff, beq_sym,
}
use tokenity.Slots.{
  SlotRecord, Scheduler, overlaps, overlaps_active, can_grant, grant, mark_queued, remove_first,
  remove_waiter, join_queue, start, poll, release, new_record, request,
}
use tokenity.Slots.Calls.{Call, starts, polls, releases, find_waiter, woken, step, run}

contains-any : (a : String) (xs : List String) → contains a xs ≡ any (λ n. n == a) xs
contains-any a [] = refl
contains-any a (x ∷ xs) = ground (arith, contains-any a xs)

any-nil : (xs : List String) → any (λ n. contains n []) xs ≡ false
any-nil [] = refl
any-nil (x ∷ xs) = any-nil xs

any-cons :
    (y : String) (xs ys : List String)
    → any (λ n. contains n (y ∷ ys)) xs ≡ (contains y xs || any (λ n. contains n ys) xs)
any-cons y [] ys = refl
any-cons y (x ∷ xs) ys = ground (arith, any-cons y xs ys, beq_sym {A = String} x y)

any-sym : (xs ys : List String) → any (λ n. contains n ys) xs ≡ any (λ n. contains n xs) ys
any-sym xs [] = any-nil xs
any-sym xs (y ∷ ys) = ground (arith, any-cons y xs ys, any-sym xs ys)

overlaps-sym : (a b : List String) → overlaps a b ≡ overlaps b a
unfolding overlaps
overlaps-sym a b = ground (arith, any-sym a b)

-- Every two entries of the table are of records that do not overlap.
abbrev pub Apart : Dict String SlotRecord → Type 0
Apart [] = Unit {0}
Apart ((k, a) ∷ d) = All (λ e. overlaps a.selected_nodes e.1.selected_nodes ≡ false) d × Apart d

abbrev FreeOf : List String → Dict String SlotRecord → Type 0
FreeOf nodes d = All (λ e. overlaps nodes e.1.selected_nodes ≡ false) d

FreeOf_lem :
    (nodes : List String) (d : Dict String SlotRecord)
    → overlaps_active nodes d ≡ false
    → FreeOf nodes d
unfolding overlaps_active
FreeOf_lem nodes [] h = tt
FreeOf_lem nodes ((k, a) ∷ d) h = ground (arith, FreeOf_lem nodes d)

FreeOf-insert :
    (nodes : List String) (k : String) (r : SlotRecord) (d : Dict String SlotRecord)
    → overlaps nodes r.selected_nodes ≡ false
    → FreeOf nodes d
    → FreeOf nodes (insert k r d)
unfolding insert
FreeOf-insert nodes k r [] h f = (h, tt)
FreeOf-insert nodes k r ((j, a) ∷ d) h f = ground (arith, FreeOf-insert nodes k r d h f.1)

Apart-insert :
    (k : String) (r : SlotRecord) (d : Dict String SlotRecord)
    → FreeOf r.selected_nodes d
    → Apart d
    → Apart (insert k r d)
unfolding insert
Apart-insert k r [] f h = (tt, tt)
Apart-insert k r ((j, a) ∷ d) f h = ground (
  arith,
  Apart-insert k r d f.1 h.1,
  FreeOf-insert a.selected_nodes k r d (overlaps-sym a.selected_nodes r.selected_nodes ∙ f.0) h.0,
)

FreeOf-erase :
    (nodes : List String) (k : String) (d : Dict String SlotRecord)
    → FreeOf nodes d
    → FreeOf nodes (erase k d)
unfolding erase
FreeOf-erase nodes k [] f = tt
FreeOf-erase nodes k ((j, a) ∷ d) f = ground (arith, FreeOf-erase nodes k d f.1)

Apart-erase : (k : String) (d : Dict String SlotRecord) → Apart d → Apart (erase k d)
unfolding erase
Apart-erase k [] h = tt
Apart-erase k ((j, a) ∷ d) h =
    ground (arith, Apart-erase k d h.1, FreeOf-erase a.selected_nodes k d h.0)

length-remove_first :
    (r : SlotRecord) (ws rest : List SlotRecord)
    → remove_first r ws ≡ some rest
    → length rest ≤ length ws
unfolding remove_first
length-remove_first r [] rest h = cc
length-remove_first r (w ∷ ws) rest h =
    ground (arith, length-remove_first r ws (or_default (remove_first r ws) []))

-- Removing a waiter leaves the active leases and the bound alone.
remove_waiter_frame :
    (r : SlotRecord) (now : ℕ) (s : Scheduler)
    → ((remove_waiter r now s).0.active ≡ s.active)
      × ((remove_waiter r now s).0.max_queue_depth ≡ s.max_queue_depth)
      × (length (remove_waiter r now s).0.waiting ≤ length s.waiting)
unfolding remove_waiter mark_queued
remove_waiter_frame r now s =
    ground (arith, length-remove_first r s.waiting (or_default (remove_first r s.waiting) []))

pub record IsSafe (s : Scheduler) : Type 0 where
  pub apart : Apart s.active
  pub bounded : length s.waiting ≤ s.max_queue_depth

grant-IsSafe :
    (r : SlotRecord) (now : ℕ) (s : Scheduler)
    → overlaps_active r.selected_nodes s.active ≡ false
    → IsSafe s
    → IsSafe (grant r now s).0
unfolding grant
grant-IsSafe r now s free h = record {
  apart =
      Apart-insert r.lease_id (record r { acquired_at = some now }) s.active
        (FreeOf_lem r.selected_nodes s.active free) h.apart;
  bounded = h.bounded;
}

join_queue-IsSafe :
    (r : SlotRecord) (now : ℕ) (s : Scheduler)
    → length s.waiting < s.max_queue_depth
    → IsSafe s
    → IsSafe (join_queue r now s).0
unfolding join_queue mark_queued
join_queue-IsSafe r now s room h = ground (arith, length-append s.waiting (r ∷ []))

remove_waiter-IsSafe :
    (r : SlotRecord) (now : ℕ) (s : Scheduler) → IsSafe s → IsSafe (remove_waiter r now s).0
remove_waiter-IsSafe r now s h =
    let (same, depth, shorter) = remove_waiter_frame r now s in
    record { apart = rw same h.apart; bounded = omega (arith, depth, shorter, h.bounded) }

poll-IsSafe :
    (r : SlotRecord) (deadline : Option ℕ) (cancelled : Bool) (now : ℕ) (s : Scheduler)
    → IsSafe s
    → IsSafe (poll r deadline cancelled now s).0
unfolding poll can_grant
poll-IsSafe r deadline cancelled now s h = ground (
  arith,
  remove_waiter_frame r now s,
  remove_waiter-IsSafe r now s h,
  grant-IsSafe r now (remove_waiter r now s).0,
)

request-IsSafe : (r : SlotRecord) (now : ℕ) (s : Scheduler) → IsSafe s → IsSafe (request r now s).0
unfolding request can_grant
request-IsSafe r now s h = ground (arith, grant-IsSafe r now s, join_queue-IsSafe r now s)

start-IsSafe :
    (id : String) (nodes : List String) (timeout : Option ℤ) (cancelled : Bool) (lease : String)
    (now : ℕ) (s : Scheduler)
    → IsSafe s
    → IsSafe (start id nodes timeout cancelled lease now s).0
unfolding start
start-IsSafe id nodes timeout cancelled lease now s h =
    let t = record s { sequence = s.sequence + 1 } in
    let safe : IsSafe t = record { apart = h.apart; bounded = h.bounded } in
    ground (arith, request-IsSafe (new_record id nodes lease now t) now t safe)

release-IsSafe : (lease : String) (s : Scheduler) → IsSafe s → IsSafe (release lease s).0
unfolding release
release-IsSafe lease s h = ground (arith, Apart-erase lease s.active h.apart)

step-IsSafe : (s : Scheduler) (c : Call) → IsSafe s → IsSafe (step s c)
unfolding step
step-IsSafe s (starts id nodes timeout cancelled lease now) h =
    start-IsSafe id nodes timeout cancelled lease now s h
step-IsSafe s (polls lease deadline cancelled now) h = go (find_waiter lease s.waiting)
  where
    go : (o : Option SlotRecord) → IsSafe (woken deadline cancelled now s o)
    go none = h
    go (some r) = poll-IsSafe r deadline cancelled now s h
step-IsSafe s (releases lease) h = release-IsSafe lease s h

-- Whatever the threads do, in any order: no two active generations share a node (an unknown node
-- set shares every node), and the queue is never longer than its limit.
pub run-IsSafe : (s : Scheduler) (cs : List Call) → IsSafe s → IsSafe (run s cs)
unfolding run
run-IsSafe s [] h = h
run-IsSafe s (c ∷ cs) h = run-IsSafe (step s c) cs (step-IsSafe s c h)

-- Releasing a lease ends it, and releasing it once more does nothing and says so.
pub release-release :
    (lease : String) (s : Scheduler)
    → (lookup lease (release lease s).0.active ≡ none)
      × (release lease (release lease s).0 ≡ ((release lease s).0, false))
unfolding release
release-release lease s = ground (arith, lookup-erase lease lease s.active, eq_iff lease lease)
