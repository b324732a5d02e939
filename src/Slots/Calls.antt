-- ===== src/Slots/Calls.antt =====
-- Runs of the scheduler: the critical sections of all threads, in any order.
use tokenity.Common.{
  ℕ, Bool, if◌then◌else◌, ◌==◌, List, [], ◌∷◌, Option, none, some, String, ℤ, string_eq,
}
use tokenity.Slots.{SlotRecord, Scheduler, start, poll, release}

pub data Call : Type 0 where
  starts : String → List String → Option ℤ → Bool → String → ℕ → Call
  -- the thread that waits with this lease id wakes up
  polls : String → Option ℕ → Bool → ℕ → Call
  releases : String → Call

-- The record of the thread that waits with the lease id.
unfoldable pub find_waiter : String → List SlotRecord → Option SlotRecord
find_waiter lease [] = none
find_waiter lease (w ∷ ws) = if w.lease_id == lease then some w else find_waiter lease ws

abbrev pub woken : Option ℕ → Bool → ℕ → Scheduler → Option SlotRecord → Scheduler
woken deadline cancelled now s none = s
woken deadline cancelled now s (some r) = (poll r deadline cancelled now s).0

unfoldable pub step : Scheduler → Call → Scheduler
step s (starts id nodes timeout cancelled lease now) =
    (start id nodes timeout cancelled lease now s).0
step s (polls lease deadline cancelled now) =
    woken deadline cancelled now s (find_waiter lease s.waiting)
step s (releases lease) = (release lease s).0

unfoldable pub run : Scheduler → List Call → Scheduler
run s [] = s
run s (c ∷ cs) = run (step s c) cs
