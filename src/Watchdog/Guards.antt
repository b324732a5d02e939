-- ===== src/Watchdog/Guards.antt =====
-- When a tick of tokenity/node_agent/watchdog.py restarts the agent, and what it leaves then.
use tokenity.Common.{ℕ, suc, ◌+◌, ◌≤◌, ◌<◌, ◌≡◌, true, false, length, some, arith, ◌++◌, ◌∷◌, []}
use tokenity.Watchdog.{
  WatchdogConfig, WatchdogState, Reading, tick, fail, escalate, restart, maintenance_active,
  in_backoff, in_grace, window, backoff, restarting,
}

-- A tick restarts the agent only where no maintenance is active, the probe failed, the failures in
-- a row with this one reach the threshold, the launch daemon's grace and the backoff have passed,
-- and the window holds fewer restarts than the limit.
pub tick_restarts_only :
    (c : WatchdogConfig) (r : Reading) (s : WatchdogState)
    → (tick c r s).1 ≡ true
    → (maintenance_active r ≡ false)
      × (r.probe.ok ≡ false)
      × (c.failure_threshold ≤ suc s.consecutive_failures)
      × (in_grace c r s ≡ false)
      × (in_backoff r s ≡ false)
      × (length (window c r s) < c.max_restarts_in_window)
unfolding tick fail escalate restart maintenance_active in_backoff in_grace window
tick_restarts_only c r s h = ground arith

-- A tick that restarts the agent adds its time to the window, counts the restart, clears the
-- failures and sets a backoff that ends at most the longest backoff later.
pub tick_restart_leaves :
    (c : WatchdogConfig) (r : Reading) (s : WatchdogState)
    → (tick c r s).1 ≡ true
    → ((tick c r s).0.restart_times ≡ window c r s ++ r.now ∷ [])
      × ((tick c r s).0.restart_count ≡ suc s.restart_count)
      × ((tick c r s).0.consecutive_failures ≡ 0)
      × ((tick c r s).0.phase ≡ restarting)
      × (until : ℕ) × ((tick c r s).0.backoff_until ≡ some until)
      × (until ≤ r.now + c.max_backoff_seconds)
unfolding tick fail escalate restart backoff window
tick_restart_leaves c r s h = (
  ground arith,
  ground arith,
  ground arith,
  ground arith,
  r.now + backoff c (length (window c r s ++ r.now ∷ [])),
  ground arith,
  ground arith,
)
