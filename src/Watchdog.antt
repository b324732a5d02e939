-- ===== src/Watchdog.antt =====
-- `AgentWatchdog` of tokenity/node_agent/watchdog.py: the probing of a node agent, with the
-- backoff and the circuit that limit how often it is restarted.
--
-- What a tick reads from outside (the maintenance file, the probe, the process table, the launch
-- daemon, the clock) is an argument of it. Times and durations are natural numbers of one unit.
-- The state is what `_persist` writes; a file with another phase than the six is not modelled.
pub mod Storm
pub mod Guards
mod Tests
use tokenity.Common.{
  ℕ, ◌+◌, ◌-◌, ◌*◌, ◌^◌, Bool, true, false, if◌then◌else◌, ltb, leb, ◌==◌, ◌&&◌, ◌||◌, not, keep,
  length, List, [], ◌∷◌, ◌++◌, Option, none, some, min, String, ℤ, is_neg, ltb_ℤ, pos, any,
  string_eq, or_default, nat_beq,
}
use tokenity.Errors.{Result, ok, value_error, raise_if, ◌>>=◌, ◌>>◌}

-- `ProbeResult`
pub record ProbeResult : Type 0 where
  pub ok : Bool
  pub status_code : Option ℕ
  pub status : Option String
  pub error : Option String

-- `AgentSnapshot`
pub record AgentSnapshot : Type 0 where
  pub process_exists : Bool
  pub port_listening : Bool
  pub launchd_running : Bool

-- `WatchdogConfig`, without the names of the launch daemon
pub record WatchdogConfig : Type 0 where
  pub agent_port : ℕ
  pub probe_timeout_seconds : ℕ
  pub probe_interval_seconds : ℕ
  pub failure_threshold : ℕ
  pub base_backoff_seconds : ℕ
  pub max_backoff_seconds : ℕ
  pub restart_window_seconds : ℕ
  pub max_restarts_in_window : ℕ
  pub keepalive_grace_seconds : ℕ

-- `__post_init__`, on numbers that may be negative: the port, the two counts, the six durations
unfoldable pub check_config : ℤ → ℤ → ℤ → List ℤ → Result (Unit {0})
check_config port threshold restarts durations = do
  raise_if (not (not (ltb_ℤ port (pos 1)) && not (ltb_ℤ (pos 65535) port))) value_error
  raise_if (ltb_ℤ threshold (pos 1)) value_error
  raise_if (ltb_ℤ restarts (pos 1)) value_error
  raise_if (any is_neg durations) value_error

pub data Phase : Type 0 where
  online degraded recovering restarting circuit_open maintenance : Phase

-- The texts of `last_failure_reason`.
pub data Reason : Type 0 where
  reported : String → Reason
  health_http : ℕ → Reason
  health_failed process_exited_keepalive_pending kickstart_failed : Reason

-- `WatchdogState`
pub record WatchdogState : Type 0 where
  pub phase : Phase
  pub consecutive_failures : ℕ
  pub restart_count : ℕ
  pub restart_times : List ℕ
  pub last_failure_reason : Option Reason
  pub last_restart_time : Option ℕ
  pub last_recovery_duration_seconds : Option ℕ
  pub last_success_time : Option ℕ
  pub last_probe_time : Option ℕ
  pub backoff_until : Option ℕ
  pub process_missing_since : Option ℕ
  pub updated_at : ℕ

-- What one tick reads: the clock where the code reads it, and the answers of the outside.
-- `outcome_time` is the reading after a success or a restart, `recovered_time` that of the duration.
pub record Reading : Type 0 where
  pub now : ℕ
  pub probe_time : ℕ
  pub maintenance_time : ℕ
  pub outcome_time : ℕ
  pub recovered_time : ℕ
  pub written_time : ℕ
  pub maintenance_until : Option ℕ
  pub probe : ProbeResult
  pub snapshot : AgentSnapshot
  pub kickstart : Bool

-- `_maintenance_active`: `none` where the file has no number under `until`
unfoldable pub maintenance_active : Reading → Bool
maintenance_active r = elim r.maintenance_until [
  | none ↦ false
  | some until ↦ ltb r.maintenance_time until
]

-- `_persist`
abbrev pub persist : Reading → WatchdogState → WatchdogState
persist r s = record s { updated_at = r.written_time }

abbrev pub was_recovering : Phase → Bool
was_recovering recovering = true
was_recovering restarting = true
was_recovering _ = false

-- The phase of an answer: `degraded` only where the status says so.
abbrev pub answered_phase : Option String → Phase
answered_phase none = online
answered_phase (some s) = if s == "degraded" then degraded else online

abbrev pub recovery_duration : Reading → WatchdogState → Option ℕ
recovery_duration r s = elim s.last_restart_time [
  | none ↦ s.last_recovery_duration_seconds
  | some started ↦
      (if was_recovering s.phase
        then some (r.recovered_time - started)
        else s.last_recovery_duration_seconds)
]

-- The branch of a probe that succeeds.
unfoldable pub succeed : Reading → WatchdogState → WatchdogState
succeed r s = record s {
  phase = answered_phase r.probe.status;
  consecutive_failures = 0;
  last_success_time = some r.outcome_time;
  last_failure_reason = none;
  backoff_until = none;
  process_missing_since = none;
  last_recovery_duration_seconds = recovery_duration r s;
}

abbrev pub status_reason : Option ℕ → Reason
status_reason none = health_failed
status_reason (some code) = if nat_beq code 0 then health_failed else health_http code

abbrev pub failure_reason : ProbeResult → Reason
failure_reason p = elim p.error [
  | none ↦ status_reason p.status_code
  | some e ↦ (if e == "" then status_reason p.status_code else reported e)
]

-- `backoff_until is not None and now < backoff_until`
unfoldable pub in_backoff : Reading → WatchdogState → Bool
in_backoff r s = elim s.backoff_until [ none ↦ false | some until ↦ ltb r.now until ]

-- Is the process gone while the launch daemon runs?
abbrev pub launchd_may_restart : Reading → Bool
launchd_may_restart r = not r.snapshot.process_exists && r.snapshot.launchd_running

-- `process_missing_since` after the look at the process table
abbrev pub missing_since : Reading → WatchdogState → Option ℕ
missing_since r s =
    if launchd_may_restart r then some (or_default s.process_missing_since r.now) else none

-- Is the grace of the launch daemon still running? `now - since < grace`
unfoldable pub in_grace : WatchdogConfig → Reading → WatchdogState → Bool
in_grace c r s =
    launchd_may_restart r
    && ltb r.now (or_default s.process_missing_since r.now + c.keepalive_grace_seconds)

-- `value >= now - restart_window_seconds`
abbrev pub recent : WatchdogConfig → ℕ → ℕ → Bool
recent c now value = leb now (value + c.restart_window_seconds)

-- The window after it was pruned.
unfoldable pub window : WatchdogConfig → Reading → WatchdogState → List ℕ
window c r s = keep (recent c r.now) s.restart_times

unfoldable pub backoff : WatchdogConfig → ℕ → ℕ
backoff c restarts = min (c.base_backoff_seconds * 2 ^ (restarts - 1)) c.max_backoff_seconds

-- The end of the branch of a restart that was asked for, and whether it took place.
unfoldable pub restart : WatchdogConfig → Reading → WatchdogState → WatchdogState × Bool
restart c r s =
    let times = s.restart_times ++ r.now ∷ [] in
    if r.kickstart
    then (
      record s {
        restart_times = times;
        restart_count = s.restart_count + 1;
        last_restart_time = some r.outcome_time;
        backoff_until = some (r.now + backoff c (length times));
        phase = restarting;
        consecutive_failures = 0;
      },
      true,
    )
    else (record s { phase = recovering; last_failure_reason = some kickstart_failed }, false)

-- The branch from the look at the process table on.
unfoldable pub escalate : WatchdogConfig → Reading → WatchdogState → WatchdogState × Bool
escalate c r s =
    let t = record s { process_missing_since = missing_since r s } in
    let u = record t { restart_times = window c r s } in
    if in_grace c r s
    then (
      record t { phase = recovering; last_failure_reason = some process_exited_keepalive_pending },
      false,
    )
    else if leb c.max_restarts_in_window (length (window c r s))
    then (record u { phase = circuit_open }, false)
    else if in_backoff r s
    then (record u { phase = recovering }, false)
    else restart c r u

-- The branch of a probe that fails.
unfoldable pub fail : WatchdogConfig → Reading → WatchdogState → WatchdogState × Bool
fail c r s =
    let t = record s {
      consecutive_failures = s.consecutive_failures + 1;
      last_failure_reason = some (failure_reason r.probe);
    } in
    if ltb t.consecutive_failures c.failure_threshold
    then (record t { phase = if in_backoff r s then recovering else degraded }, false)
    else escalate c r t

-- `tick`: the state that it persists, and whether it restarted the agent
unfoldable pub tick : WatchdogConfig → Reading → WatchdogState → WatchdogState × Bool
tick c r s =
    let t = record s { last_probe_time = some r.probe_time } in
    let u =
      if maintenance_active r
      then (
        record t { phase = maintenance; consecutive_failures = 0; last_failure_reason = none },
        false,
      )
      else if r.probe.ok
      then (succeed r t, false)
      else fail c r t in
    (persist r u.0, u.1)
