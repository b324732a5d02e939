-- ===== src/Instance/Leases.antt =====
-- The request counters of `ModelInstance`, and the state `busy` that reflects them.
use tokenity.Common.{ℕ, ◌+◌, ◌⊎◌, ◌<◌, ◌≡◌, Bool, true, false, List, [], ◌∷◌, Option, arith, All}
use tokenity.Errors.{ok}
use tokenity.Lifecycle.{Lifecycle, ready, busy, unloading}
use tokenity.Instance.{
  ModelInstance, Document, transition, Call, acquire_request_lease, release_request_lease, step,
  run, transits,
}

-- `busy` exactly while something is active or queued.
pub record IsExact (s : ModelInstance) : Type 0 where
  pub idle_active : s.state ≡ ready → s.active_request_count ≡ 0
  pub idle_queued : s.state ≡ ready → s.queued_request_count ≡ 0
  pub in_use : s.state ≡ busy → 0 < s.active_request_count + s.queued_request_count

-- The calls that a request makes, and the heartbeats, as against the lifecycle's own.
abbrev pub is_request : Call → Bool
is_request (transits _ _ _ _ _) = false
is_request _ = true

step-IsExact : (s : ModelInstance) (c : Call) → is_request c ≡ true → IsExact s → IsExact (step s c)
unfolding step
step-IsExact s (transits _ _ _ _ _) q h = cc
step-IsExact s _ q h = ground arith

-- Through any acquiring, releasing, queueing, dequeueing and heartbeats, a ready instance has no
-- active and no queued request, and a busy one has at least one.
pub run-IsExact :
    (s : ModelInstance) (cs : List Call)
    → All (λ c. is_request c ≡ true) cs
    → IsExact s
    → IsExact (run s cs)
unfolding run
run-IsExact s [] q h = h
run-IsExact s (c ∷ cs) q h = run-IsExact (step s c) cs q.1 (step-IsExact s c q.0 h)

-- A state change costs a version: two for a ready instance that goes busy and back, else none.
abbrev version_after_lease : Lifecycle → ℕ → ℕ
version_after_lease ready v = v + 2
version_after_lease _ v = v

-- Where the counters agree with the state, a lease that was granted can be released, and the
-- release undoes it: every field is as before the lease, but for the time stamp and, if the
-- instance was ready, a version that is higher by two.
pub release-acquire :
    (s t : ModelInstance) (now later n : ℕ)
    → IsExact s
    → acquire_request_lease now s ≡ ok (t, n)
    → release_request_lease later t
      ≡ ok (
        (record s { version = version_after_lease s.state s.version; updated_at = later }),
        s.active_request_count,
      )
unfolding acquire_request_lease release_request_lease
release-acquire s t now later n exact h = ground arith

-- An instance with an outstanding lease or a queued request is not unloaded.
pub unload_needs_idle :
    (s t : ModelInstance) (expected : Option ℕ) (evidence error : Option Document) (now n : ℕ)
    → transition unloading expected evidence error now s ≡ ok (t, n)
    → (s.state ≡ unloading) × (t ≡ s) ⊎ (s.active_request_count ≡ 0) × (s.queued_request_count ≡ 0)
unfolding transition
unload_needs_idle s t expected evidence error now n h = ground arith
