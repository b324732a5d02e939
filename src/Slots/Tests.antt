-- ===== src/Slots/Tests.antt =====
-- Two generations on one node, and a third elsewhere.
use tokenity.Common.{
  ◌<◌, ◌≡◌, refl, false, List, [], ◌∷◌, none, some, arith, eq_iff, lookup, strip, All, string_eq,
}
use tokenity.Lifecycle.{ready}
use tokenity.Instance.Samples.{sample}
use tokenity.Slots.{
  SlotRecord, Scheduler, start, poll, granted, overlaps, overlaps_active, can_grant, clear_ahead,
  grant, remove_waiter, remove_first, mark_queued, new_record, request, normalize_nodes,
  stripped_nodes,
}
use tokenity.Slots.Calls.{Call, starts, polls, releases, find_waiter, run}
use tokenity.Slots.Exclusion.{IsSafe, run-IsSafe}
use tokenity.Slots.Fifo.{Ordered, IsOrdered, no_overtaking}
use tokenity.Slots.Mirror.{Mirrors, IsMirrored, run-IsMirrored, oldest_granted, waiting_for}

abbrev idle : Scheduler
idle = record {
  max_queue_depth = 4;
  registry = some (("i", sample "i" "qwen" ready) ∷ []);
  waiting = [];
  active = [];
  sequence = 0;
}

abbrev calls : List Call
calls =
    starts "i" ("n1" ∷ []) none false "x" 1
    ∷ starts "i" ("n1" ∷ "n2" ∷ []) none false "y" 2
    ∷ starts "i" ("n3" ∷ []) none false "z" 3
    ∷ releases "x"
    ∷ polls "y" none false 4
    ∷ []

idle-IsSafe : IsSafe idle
idle-IsSafe = record { apart = tt; bounded = omega arith }

run-IsSafe_example : IsSafe (run idle calls)
run-IsSafe_example = run-IsSafe idle calls idle-IsSafe

idle-IsOrdered : IsOrdered idle
unfolding Ordered
idle-IsOrdered = (tt, tt)

idle-IsMirrored : IsMirrored idle
unfolding Mirrors lookup waiting_for
idle-IsMirrored = λ id. ground (arith, eq_iff "i" id)

run-IsMirrored_example : IsMirrored (run idle calls)
run-IsMirrored_example = run-IsMirrored idle calls idle-IsMirrored

abbrev waiter : SlotRecord
waiter = record {
  lease_id = "y";
  instance_id = "i";
  selected_nodes = "n1" ∷ "n2" ∷ [];
  sequence = 2;
  requested_at = 2;
  acquired_at = none;
}

abbrev lone : Scheduler
lone = record idle { registry = none; waiting = waiter ∷ []; sequence = 2 }

lone-IsOrdered : IsOrdered lone
unfolding Ordered
lone-IsOrdered = ((omega arith, tt), (omega arith, tt))

lone_granted : (poll waiter none false 4 lone).1 ≡ granted (record waiter { acquired_at = some 4 })
unfolding poll can_grant clear_ahead overlaps_active remove_waiter remove_first mark_queued grant
lone_granted = refl

no_overtaking_example :
    All
      (λ w. w.sequence < waiter.sequence → overlaps waiter.selected_nodes w.selected_nodes ≡ false)
      lone.waiting
unfolding find_waiter
no_overtaking_example =
    no_overtaking waiter (record waiter { acquired_at = some 4 }) none false 4 lone lone-IsOrdered
      refl lone_granted

elsewhere :
    (start "i" (" n3 " ∷ []) none false "z" 5 lone).1
    ≡ granted (record waiter {
      lease_id = "z";
      selected_nodes = "n3" ∷ [];
      sequence = 3;
      requested_at = 5;
      acquired_at = some 5;
    })
unfolding start request new_record normalize_nodes stripped_nodes strip can_grant clear_ahead
    overlaps overlaps_active grant
elsewhere = refl

lone-IsMirrored : IsMirrored lone
unfolding Mirrors
lone-IsMirrored = tt

oldest_granted_example :
    ((poll waiter (some 3) false 4 lone).1 ≡ granted (record waiter { acquired_at = some 4 }))
    × ((poll waiter (some 3) false 4 lone).0.waiting ≡ [])
    × (lookup "y" (poll waiter (some 3) false 4 lone).0.active
        ≡ some (record waiter { acquired_at = some 4 }))
unfolding overlaps_active
oldest_granted_example = oldest_granted waiter [] (some 3) 4 lone lone-IsMirrored refl refl
