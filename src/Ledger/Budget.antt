-- ===== src/Ledger/Budget.antt =====
-- The memory budget: what the instances hold together stays within what the node may promise.
use tokenity.Common.{
  ℕ, ◌+◌, ◌≤◌, ◌≡◌, List, [], ◌∷◌, Option, or_default, String, Dict, lookup, insert, erase, ℤ, pos,
  pos_part, arith, max, string_eq, All, All-map,
}
use tokenity.Errors.{ok, from_ok}
use tokenity.Ratio.{Ratio}
use tokenity.Memory.{MemoryReservationBreakdown}
use tokenity.Ledger.Calls.{
  Call, reserves, resizes, reconciles, releases, snapshots, headroom_of, after, step, run,
}
use tokenity.Ledger.{
  ResourceLedger, total_of, usable_memory, admit, reserve, resize, reconcile, reconcile_target,
  observation, prune_port_quarantine,
}

-- Setting one reservation moves the total by the difference.
total_of-insert :
    (k : String) (n : ℕ) (d : Dict String ℕ)
    → total_of (insert k n d) + or_default (lookup k d) 0 ≡ total_of d + n
unfolding insert lookup
total_of-insert k n [] = omega arith
total_of-insert k n ((j, m) ∷ d) = ground (arith, total_of-insert k n d)

total_of-erase : (k : String) (d : Dict String ℕ) → total_of (erase k d) ≤ total_of d
unfolding erase
total_of-erase k [] = omega arith
total_of-erase k ((j, m) ∷ d) = ground (arith, total_of-erase k d)

lookup-le-total_of : (k : String) (d : Dict String ℕ) → or_default (lookup k d) 0 ≤ total_of d
unfolding lookup
lookup-le-total_of k [] = omega arith
lookup-le-total_of k ((j, m) ∷ d) = ground (arith, lookup-le-total_of k d)

-- Bounds the usable memory of a call with this headroom argument, whatever the reservations are.
abbrev pub Allows : ℕ → ResourceLedger → Option Ratio → Type 0
Allows budget l value = (u : ℕ) → usable_memory value l ≡ ok u → u ≤ budget

admit_budget :
    (budget memory : ℕ) (id : String) (ports : List ℕ) (system : Option ℤ) (value : Option Ratio)
    (l m : ResourceLedger)
    → Allows budget l value
    → total_of l.reservations ≤ budget
    → admit id memory ports system value l ≡ ok m
    → total_of m.reservations ≤ budget
unfolding admit
admit_budget budget memory id ports system value l m allows fits h = ground (
  arith,
  allows (from_ok 0 (usable_memory value l)),
  total_of-insert id memory l.reservations,
  lookup-le-total_of id l.reservations,
)

resize_budget :
    (budget : ℕ) (id : String) (memory : ℤ) (system : Option ℤ) (value : Option Ratio)
    (l : ResourceLedger)
    → Allows budget l value
    → total_of l.reservations ≤ budget
    → total_of (after l (resize id memory system value l)).reservations ≤ budget
unfolding resize
resize_budget budget id memory system value l allows fits = ground (
  arith,
  allows (from_ok 0 (usable_memory value l)),
  total_of-insert id (pos_part memory) l.reservations,
  lookup-le-total_of id l.reservations,
)

reconcile_budget :
    (budget : ℕ) (id : String) (peak footprint : Option ℤ) (margin : Ratio) (minimum : ℤ)
    (breakdown : Option MemoryReservationBreakdown) (system : Option ℤ) (value : Option Ratio)
    (l : ResourceLedger)
    → Allows budget l value
    → total_of l.reservations ≤ budget
    → total_of
        (after l (reconcile id peak footprint margin minimum breakdown system value l)).reservations
      ≤ budget
unfolding reconcile
reconcile_budget budget id peak footprint margin minimum breakdown system value l allows fits =
    ground (
      arith,
      resize_budget budget id
          (pos (
            max (pos_part minimum) (
              from_ok 0
                (reconcile_target (observation peak) (observation footprint) margin breakdown))))
          system value l allows fits,
    )

reserve_budget :
    (budget : ℕ) (id : String) (memory : ℤ) (ports : List ℕ) (system : Option ℤ)
    (value : Option Ratio) (now : ℕ) (l : ResourceLedger)
    → Allows budget l value
    → total_of l.reservations ≤ budget
    → total_of (reserve id memory ports system value now l).0.reservations ≤ budget
unfolding reserve usable_memory
reserve_budget budget id memory ports system value now l allows fits = ground (
  arith,
  admit_budget budget (pos_part memory) id ports system value (prune_port_quarantine now l)
      (from_ok l (admit id (pos_part memory) ports system value (prune_port_quarantine now l)))
      allows fits,
)

step_budget :
    (budget : ℕ) (l : ResourceLedger) (c : Call)
    → Allows budget l (headroom_of c)
    → total_of l.reservations ≤ budget
    → total_of (step l c).reservations ≤ budget
unfolding step
step_budget budget l (reserves id memory ports system value now) allows fits =
    reserve_budget budget id memory ports system value now l allows fits
step_budget budget l (resizes id memory system value) allows fits =
    resize_budget budget id memory system value l allows fits
step_budget budget l (reconciles id peak footprint margin minimum breakdown system value) allows
      fits =
    reconcile_budget budget id peak footprint margin minimum breakdown system value l allows fits
step_budget budget l (releases id now) allows fits = omega (arith, total_of-erase id l.reservations)
step_budget budget l (snapshots now) allows fits = fits

usable_memory-step :
    (l : ResourceLedger) (c : Call) (value : Option Ratio)
    → usable_memory value (step l c) ≡ usable_memory value l
unfolding step resize reconcile reserve admit usable_memory
usable_memory-step l (reserves id memory ports system v now) value = ground arith
usable_memory-step l (resizes id memory system v) value = ground arith
usable_memory-step l (reconciles id peak footprint margin minimum breakdown system v) value =
    ground arith
usable_memory-step l (releases id now) value = ground arith
usable_memory-step l (snapshots now) value = ground arith

Allows-step :
    (budget : ℕ) (l : ResourceLedger) (c : Call) (value : Option Ratio)
    → Allows budget l value
    → Allows budget (step l c) value
Allows-step budget l c value allows u h = allows u (rw (← usable_memory-step l c value) h)

-- If every call of a sequence asks for a headroom that leaves at most `budget` usable bytes, and
-- the reservations start within `budget`, then they end within it: no sequence of reserving,
-- resizing, reconciling and releasing overcommits the node, whichever calls are refused.
pub run_budget :
    (budget : ℕ) (l : ResourceLedger) (cs : List Call)
    → All (λ c. Allows budget l (headroom_of c)) cs
    → total_of l.reservations ≤ budget
    → total_of (run l cs).reservations ≤ budget
unfolding run
run_budget budget l [] allowed fits = fits
run_budget budget l (c ∷ cs) allowed fits =
    run_budget budget (step l c) cs
      (All-map _ _ cs (λ d. Allows-step budget l c (headroom_of d)) allowed.1)
      (step_budget budget l c allowed.0 fits)
