-- ===== src/Watchdog/Tests.antt =====
-- A watchdog that allows two restarts in 900 seconds, and an agent that does not answer.
use tokenity.Common.{ℕ, ◌≤◌, ◌≡◌, refl, true, false, List, [], ◌∷◌, none, some, keep, length, arith}
use tokenity.Watchdog.{
  WatchdogConfig, WatchdogState, Reading, online, recent, tick, fail, escalate, restart, window,
  maintenance_active, in_grace, in_backoff, backoff,
}
use tokenity.Watchdog.Storm.{restarts_bounded, history}

abbrev config : WatchdogConfig
config = record {
  agent_port = 9100;
  probe_timeout_seconds = 2;
  probe_interval_seconds = 5;
  failure_threshold = 1;
  base_backoff_seconds = 10;
  max_backoff_seconds = 15;
  restart_window_seconds = 900;
  max_restarts_in_window = 2;
  keepalive_grace_seconds = 20;
}

abbrev fresh : WatchdogState
fresh = record {
  phase = online;
  consecutive_failures = 0;
  restart_count = 0;
  restart_times = [];
  last_failure_reason = none;
  last_restart_time = none;
  last_recovery_duration_seconds = none;
  last_success_time = none;
  last_probe_time = none;
  backoff_until = none;
  process_missing_since = none;
  updated_at = 0;
}

abbrev silent : ℕ → Reading
silent t = record {
  now = t;
  probe_time = t;
  maintenance_time = t;
  outcome_time = t;
  recovered_time = t;
  written_time = t;
  maintenance_until = none;
  probe = record { ok = false; status_code = none; status = none; error = some "timeout" };
  snapshot = record { process_exists = true; port_listening = false; launchd_running = true };
  kickstart = true;
}

silent_restarts : (tick config (silent 0) fresh).1 ≡ true
unfolding tick fail escalate restart maintenance_active in_grace in_backoff window
silent_restarts = refl

abbrev outage : List Reading
outage = silent 0 ∷ silent 20 ∷ silent 40 ∷ silent 60 ∷ []

outage_log : (history config outage (record { state = fresh; log = [] })).log ≡ 0 ∷ 20 ∷ []
unfolding tick fail escalate restart maintenance_active in_grace in_backoff window backoff
outage_log = refl

restarts_bounded_example :
    length
      (keep (recent config 60) (history config outage (record { state = fresh; log = [] })).log)
    ≤ 2
restarts_bounded_example =
    restarts_bounded config outage fresh 0 60 refl
      (omega arith, (omega arith, (omega arith, (omega arith, tt)))) (omega arith)
