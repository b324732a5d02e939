-- ===== src/Instance/Invariant.antt =====
-- What every method of `ModelInstance` keeps, and how the version moves.
use tokenity.Common.{
  ℕ, ◌+◌, ◌≤◌, ◌<◌, ◌≡◌, ◌≢◌, Bool, true, false, if◌then◌else◌, ◌==◌, List, [], ◌∷◌, Option, some,
  arith,
}
use tokenity.Errors.{err, stale_instance_update}
use tokenity.Lifecycle.{Lifecycle, lifecycle_eq, lifecycle_beq_iff, unloading, stopped}
use tokenity.Instance.{ModelInstance, Document, transition, Call, step, run, transits}

abbrev pub winding_down : Lifecycle → Bool
winding_down unloading = true
winding_down stopped = true
winding_down _ = false

pub record IsSettled (s : ModelInstance) : Type 0 where
  pub no_active : winding_down s.state ≡ true → s.active_request_count ≡ 0
  pub no_queued : winding_down s.state ≡ true → s.queued_request_count ≡ 0
  pub unhealthy : winding_down s.state ≡ true → s.health_ready ≡ some false

-- Whatever is called, an instance that is unloading or stopped has no active and no queued
-- request and is marked as not healthy.
pub step-IsSettled : (s : ModelInstance) (c : Call) → IsSettled s → IsSettled (step s c)
unfolding step
step-IsSettled s (transits state expected evidence error now) h = ground arith
step-IsSettled s _ h = ground arith

-- Through any calls, starting where it holds, an instance that is unloading or stopped has no
-- active request, no queued request, and is marked as not healthy.
pub run-IsSettled : (s : ModelInstance) (cs : List Call) → IsSettled s → IsSettled (run s cs)
unfolding run
run-IsSettled s [] h = h
run-IsSettled s (c ∷ cs) h = run-IsSettled (step s c) cs (step-IsSettled s c h)

-- The version counts the state changes: a call adds one to it if it changes the state, and
-- leaves it alone if it does not.
pub step-version :
    (s : ModelInstance) (c : Call)
    → (step s c).version ≡ s.version + (if (step s c).state == s.state then 0 else 1)
unfolding step
step-version s (transits state expected evidence error now) = ground arith
step-version s _ = ground arith

version-le-run : (s : ModelInstance) (cs : List Call) → s.version ≤ (run s cs).version
unfolding run
version-le-run s [] = omega arith
version-le-run s (c ∷ cs) = ground (arith, step-version s c, version-le-run (step s c) cs)

stale_version :
    (state : Lifecycle) (v : ℕ) (evidence error : Option Document) (now : ℕ) (s : ModelInstance)
    → v < s.version
    → transition state (some v) evidence error now s ≡ err stale_instance_update
unfolding transition
stale_version state v evidence error now s h = ground arith

-- Once a call has changed the state, a writer that still expects the version of before is
-- refused as stale, whatever was called in between and whatever it asks for.
pub stale_writer_refused :
    (s : ModelInstance) (c : Call) (cs : List Call) (state : Lifecycle)
    (evidence error : Option Document) (now : ℕ)
    → (step s c).state ≢ s.state
    → transition state (some s.version) evidence error now (run (step s c) cs)
      ≡ err stale_instance_update
stale_writer_refused s c cs state evidence error now changed =
    stale_version state s.version evidence error now (run (step s c) cs) (
      ground (
        arith,
        step-version s c,
        version-le-run (step s c) cs,
        lifecycle_beq_iff (step s c).state s.state,
      ))
