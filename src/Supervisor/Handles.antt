-- ===== src/Supervisor/Handles.antt =====
-- The handles of tokenity/process/supervisor.py: a child of the supervisor, or a process that an
-- earlier agent has left, `_AdoptedProcess`, under the time at which it was started.
use tokenity.Common.{
  ◌≡◌, ap, eq_iff, ℕ, zero, suc, ◌+◌, Bool, true, false, if◌then◌else◌, ◌==◌, ltb, List, ◌∷◌,
  Option, none, some, String, Dict, ℤ, pos, string_eq,
}

pub data Signal : Type 0 where
  sigterm sigkill : Signal

pub data Process : Type 0 where
  child : ℕ → Process
  adopted : ℕ → String → Process

abbrev pub pid_of : Process → ℕ
pid_of (child pid) = pid
pid_of (adopted pid start_identity) = pid

-- No exception, `ProcessLookupError`, `PermissionError`, or another `OSError`.
pub data Delivery : Type 0 where
  delivered no_process not_permitted os_error : Delivery

-- A role and an instance.
abbrev pub Key : Type 0
Key = String × Option String

-- What the n-th call finds: `process_start_identity`; the state by `ps`, whether it is that of a
-- zombie, unless `ps` failed; `Popen.poll`; the answer to a signal for a group and for one process;
-- the number of a new process, unless the
-- log or the process cannot be made; the log file of a role; and the clock in milliseconds.
pub record Os : Type 0 where
  pub process_start_identity : ℕ → ℕ → Option String
  pub is_zombie : ℕ → ℕ → Option Bool
  pub exit_code : ℕ → ℕ → Option ℤ
  pub killpg : ℕ → ℕ → Delivery
  pub kill : ℕ → ℕ → Delivery
  pub spawn : ℕ → Option ℕ
  pub log_path : Key → String
  pub now : ℕ → ℕ

-- A signal is noted with the number of the call that sends it, and with the answer. `sweeps` is
-- `_terminate_related_processes`: every process group of which a command line has the marker of the
-- command gets the signal, whoever has started it. Noted as well is that a process is seen to have
-- ended, or that its number is another one's now, and that `ps` said nothing about it: it is gone, or
-- `ps` failed.
pub data Event : Type 0 where
  signals : ℕ → Process → Signal → Delivery → Event
  sweeps : List String → Signal → Event
  spawns : Key → ℕ → Event
  sees_exit : Process → Event
  ps_silent : Process → Event

pub record RoleSupervisor : Type 0 where
  pub processes : Dict Key Process
  pub commands : Dict Key (List String)
  pub logs : Dict Key String
  pub new_sessions : Dict Key Bool
  pub operation_ids : Dict Key (Option String)

pub record World : Type 0 where
  pub supervisor : RoleSupervisor
  pub calls : ℕ
  pub trace : List Event

abbrev pub tick : World → World
tick w = record w { calls = w.calls + 1 }

abbrev pub noted : Event → World → World
noted e w = record w { trace = e ∷ w.trace }

abbrev pub has_identity : Option String → String → Bool
has_identity none expected = false
has_identity (some identity) expected = identity == expected

pub identified : (o : Option String) (t : String) → has_identity o t ≡ true → o ≡ some t
identified none t h = cc
identified (some s) t h = ap some ((eq_iff s t).0 h)

-- An exit is noted, so that the trace says what the supervisor knows.
abbrev pub looked : Process → World → Option ℤ → World × Option ℤ
looked p w none = (w, none)
looked p w (some code) = (noted (sees_exit p) w, some code)

-- `ps` without an answer counts as an exit.
abbrev pub looked_by_ps : Process → World → Option Bool → World × Option ℤ
looked_by_ps p w none = (noted (ps_silent p) w, some (pos 0))
looked_by_ps p w (some true) = (noted (sees_exit p) w, some (pos 0))
looked_by_ps p w (some false) = (w, none)

-- `Popen.send_signal` passes over `ProcessLookupError`.
abbrev pub unless_gone : World × Delivery → World × Delivery
unless_gone (w, no_process) = (w, delivered)
unless_gone (w, answer) = (w, answer)

-- What another start time than the recorded one, or none, says of the process.
abbrev pub unfound : Process → Option String → Event
unfound p none = ps_silent p
unfound p (some identity) = sees_exit p

module _ (os : Os) where
  unfoldable pub poll : Process → World → World × Option ℤ
  poll (child pid) w = looked (child pid) (tick w) (os.exit_code w.calls pid)
  poll (adopted pid start) w =
      if has_identity (os.process_start_identity w.calls pid) start
      then looked_by_ps (adopted pid start) (tick (tick w)) (os.is_zombie (w.calls + 1) pid)
      else (
        noted (unfound (adopted pid start) (os.process_start_identity w.calls pid)) (tick w),
        some (pos 0),
      )

  -- The signal is sent at this call. The check of an adopted process and the signal right behind it
  -- are one call.
  abbrev pub sent : (ℕ → ℕ → Delivery) → Process → Signal → World → World × Delivery
  sent answer p s w =
      let d = answer w.calls (pid_of p) in (noted (signals w.calls p s d) (tick w), d)

  -- `send_signal`
  unfoldable pub send_signal : Process → Signal → World → World × Delivery
  send_signal (child pid) s w = unless_gone (sent os.kill (child pid) s w)
  send_signal (adopted pid start) s w =
      if has_identity (os.process_start_identity w.calls pid) start
      then sent os.kill (adopted pid start) s w
      else (
        noted (unfound (adopted pid start) (os.process_start_identity w.calls pid)) (tick w),
        no_process,
      )

  -- `send_group_signal`, and `os.killpg` for a child
  unfoldable pub send_group_signal : Process → Signal → World → World × Delivery
  send_group_signal (child pid) s w = sent os.killpg (child pid) s w
  send_group_signal (adopted pid start) s w =
      if has_identity (os.process_start_identity w.calls pid) start
      then sent os.killpg (adopted pid start) s w
      else (
        noted (unfound (adopted pid start) (os.process_start_identity w.calls pid)) (tick w),
        no_process,
      )

  abbrev pub or_single : Process → Signal → World × Delivery → World × Delivery
  or_single p s (w, delivered) = (w, delivered)
  or_single p s (w, no_process) = (w, delivered)
  or_single p s (w, not_permitted) = send_signal p s w
  or_single p s (w, os_error) = (w, os_error)

  -- `_terminate_process_group`
  unfoldable pub terminate_process_group : Process → Signal → World → World × Delivery
  terminate_process_group p s w = or_single p s (send_group_signal p s w)

  -- The wait of `stop`: `poll`, then the clock. The fuel counts the rounds.
  abbrev pub keep_waiting : ℕ → (World → World) → World × Option ℤ → World
  keep_waiting deadline again (w, some code) = w
  keep_waiting deadline again (w, none) =
      if ltb (os.now w.calls) deadline then again (tick w) else tick w

  unfoldable pub await_exit : Process → ℕ → ℕ → World → World
  await_exit p deadline zero w = w
  await_exit p deadline (suc fuel) w = keep_waiting deadline (await_exit p deadline fuel) (poll p w)
