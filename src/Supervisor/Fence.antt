-- ===== src/Supervisor/Fence.antt =====
-- Whom `stop` and `request_stop` of tokenity/process/supervisor.py signal.
use tokenity.Common.{ℕ, ◌≡◌, Option, none, some, lookup, ℤ, pair_eq, option_eq, string_eq}
use tokenity.Supervisor.{stop, request_stop, request_process}
use tokenity.Supervisor.Handles.{Process, Os, Key, World, poll, sigterm}
use tokenity.Supervisor.Trace.{Extends, poll-On, signal_role-On, stop_process-On, ◌then◌}

module _ (os : Os) (key : Key) where
  request_process-On :
      (p : Process) (w : World) (m : World × Option ℤ)
      → Extends os key p w m.0
      → Extends os key p w (request_process os key p m).0
  request_process-On p w (v, some code) h = h
  request_process-On p w (v, none) h = ◌then◌ os key h (signal_role-On os key p sigterm v)

  pub stop-Extends :
      (fuel timeout : ℕ) (w : World) (p : Process)
      → lookup key w.supervisor.processes ≡ some p
      → Extends os key p w (stop os fuel timeout key w).0
        × Extends os key p w (request_stop os key w).0
  unfolding stop request_stop
  stop-Extends fuel timeout w p e = (
    rw e (stop_process-On os key fuel timeout p w (poll os p w) (poll-On os key p w)),
    rw e (request_process-On p w (poll os p w) (poll-On os key p w)),
  )
