-- ===== src/Agent/Handoff/Tests.antt =====
-- A request that gives up while the worker holds a lease that it has not shown yet.
use tokenity.Common.{◌+◌, ◌≤◌, ◌≡◌, refl, true, false, if◌then◌else◌}
use tokenity.Agent.Handoff.{
  Handoff, initial, publish, clean_up, Reach, here, next, acquires, fails, cancels, cleans_up,
  publishes, holding, cancelling, failing,
}
use tokenity.Agent.Handoff.Accounts.{handed_over, has_returned}

abbrev leased : Handoff
leased = record initial { worker = holding; acquired = 1 }

abbrev given_up : Handoff
given_up = record leased { request = failing }

abbrev cancelled : Handoff
cancelled = record leased { request = cancelling; cancel_event = true }

abbrev late : Handoff
late = publish (clean_up cancelled)

too_late : Reach initial late
unfolding clean_up
too_late =
    next
      (next
        (next (next (next here (acquires initial refl)) (fails leased refl))
          (cancels given_up refl))
        (cleans_up cancelled refl))
      (publishes (clean_up cancelled) refl)

handed_over_example :
    (late.holder ≡ false)
    × (late.acquired ≤ 1)
    × (late.acquired ≡ late.released + (if has_returned late.request then 1 else 0))
unfolding publish clean_up
handed_over_example = handed_over too_late refl refl

given_back : late.released ≡ 1
unfolding publish clean_up
given_back = refl
