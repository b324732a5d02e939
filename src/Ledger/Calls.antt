-- ===== src/Ledger/Calls.antt =====
-- Sequences of calls of `ResourceLedger`, each with the time that it reads from the clock.
use tokenity.Common.{ℕ, List, [], ◌∷◌, Option, none, String, ℤ}
use tokenity.Errors.{Result, ok, err}
use tokenity.Ratio.{Ratio}
use tokenity.Memory.{MemoryReservationBreakdown}
use tokenity.Ledger.{ResourceLedger, prune_port_quarantine, reserve, resize, reconcile, release}

pub data Call : Type 0 where
  reserves : String → ℤ → List ℕ → Option ℤ → Option Ratio → ℕ → Call
  resizes : String → ℤ → Option ℤ → Option Ratio → Call
  reconciles :
      String
      → Option ℤ
      → Option ℤ
      → Ratio
      → ℤ
      → Option MemoryReservationBreakdown
      → Option ℤ
      → Option Ratio
      → Call
  releases : String → ℕ → Call
  -- `snapshot` drops the quarantines that have run out, and writes nothing else
  snapshots : ℕ → Call

-- The headroom that the call asks for.
abbrev pub headroom_of : Call → Option Ratio
headroom_of (reserves _ _ _ _ value _) = value
headroom_of (resizes _ _ _ value) = value
headroom_of (reconciles _ _ _ _ _ _ _ value) = value
headroom_of _ = none

abbrev pub after : ResourceLedger → Result (ResourceLedger × ℕ) → ResourceLedger
after l (ok (m, n)) = m
after l (err e) = l

unfoldable pub step : ResourceLedger → Call → ResourceLedger
unfolding release prune_port_quarantine
step l (reserves id memory ports system value now) = (reserve id memory ports system value now l).0
step l (resizes id memory system value) = after l (resize id memory system value l)
step l (reconciles id peak footprint margin minimum breakdown system value) =
    after l (reconcile id peak footprint margin minimum breakdown system value l)
step l (releases id now) = release id now l
step l (snapshots now) = prune_port_quarantine now l

unfoldable pub run : ResourceLedger → List Call → ResourceLedger
run l [] = l
run l (c ∷ cs) = run (step l c) cs
