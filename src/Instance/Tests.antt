-- ===== src/Instance/Tests.antt =====
-- Runs of one instance.
use tokenity.Common.{◌≡◌, refl, List, [], ◌∷◌, none, some, true}
use tokenity.Errors.{err, instance_conflict}
use tokenity.Lifecycle.{
  launching, loading_metadata, materializing_weights, compiling_warming, ready, busy, unloading,
  lifecycle_eq,
}
use tokenity.Instance.{
  ModelInstance, Call, transits, acquires, releases, enqueues, step, run, transition,
}
use tokenity.Instance.Samples.{fresh, idle}
use tokenity.Instance.Invariant.{IsSettled}
use tokenity.Instance.Leases.{IsExact, run-IsExact}
use tokenity.Instance.Trace.{visits, serving_needs_load}

abbrev load : List Call
load =
    transits launching none none none 1
    ∷ transits loading_metadata none none none 2
    ∷ transits materializing_weights none none none 3
    ∷ transits compiling_warming none none none 4
    ∷ transits ready (some 4) (some "warm") none 5
    ∷ []

load_serves : (run fresh load).state ≡ ready
unfolding run step
load_serves = refl

load_twice_refused : (run fresh (load)).version ≡ 5
unfolding run step
load_twice_refused = refl

serving_needs_load_example :
    (visits launching fresh load ≡ true)
    × (visits loading_metadata fresh load ≡ true)
    × (visits materializing_weights fresh load ≡ true)
    × (visits compiling_warming fresh load ≡ true)
unfolding run step
serving_needs_load_example = serving_needs_load fresh load refl refl

fresh-IsSettled : IsSettled fresh
fresh-IsSettled = record { no_active = λ h. cc; no_queued = λ h. cc; unhealthy = λ h. cc }

idle-IsExact : IsExact idle
idle-IsExact = record { idle_active = λ h. refl; idle_queued = λ h. refl; in_use = λ h. cc }

run-IsExact_example : IsExact (run idle (acquires 1 ∷ enqueues 2 ∷ releases 3 ∷ []))
run-IsExact_example =
    run-IsExact idle (acquires 1 ∷ enqueues 2 ∷ releases 3 ∷ []) (refl, (refl, (refl, tt)))
      idle-IsExact

abbrev leased : ModelInstance
leased = record idle { state = busy; version = 1; updated_at = 1; active_request_count = 1 }

busy_not_unloaded : transition unloading none none none 3 leased ≡ err instance_conflict
unfolding transition
busy_not_unloaded = refl
