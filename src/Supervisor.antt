-- ===== src/Supervisor.antt =====
-- `RoleSupervisor` and `_AdoptedProcess` of tokenity/process/supervisor.py: the processes that a node
-- runs, one for each role and instance.
--
-- The operating system is what the supervisor finds at each of its calls, in their order: it is the
-- argument `Os`, so that processes may end and their numbers be used again at any time. The trace is
-- what the supervisor does to processes, the latest first. Each method takes the supervisor's lock.
pub mod Handles
pub mod Trace
pub mod Fence
pub mod Replace
pub mod Waits
pub mod Adopt
mod Tests
use tokenity.Common.{
  ℕ, zero, suc, ◌+◌, Bool, true, false, if◌then◌else◌, ◌==◌, ◌&&◌, not, ltb, is_none, List, [], ◌∷◌,
  ◌++◌, Option, none, some, or_default, String, Dict, lookup, insert, ℤ, string_eq, list_beq,
  option_eq, pair_eq,
}
use tokenity.Supervisor.Handles.{
  Signal, sigterm, sigkill, Process, child, adopted, Delivery, delivered, no_process, not_permitted,
  os_error, Os, Key, Event, sweeps, spawns, World, RoleSupervisor, tick, noted, poll, send_signal,
  terminate_process_group, pid_of, await_exit, has_identity,
}

-- A role without an instance also ends the processes whose command lines are like its command.
abbrev pub is_shared : Key → Bool
is_shared (role, instance_id) = is_none instance_id

abbrev pub sweep_command : Signal → Option (List String) → World → World
sweep_command s none w = w
sweep_command s (some []) w = w
sweep_command s (some (word ∷ words)) w = noted (sweeps (word ∷ words) s) w

abbrev pub sweep : Signal → Key → World → World
sweep s key w = if is_shared key then sweep_command s (lookup key w.supervisor.commands) w else w

-- A group is signalled where the process has a session of its own.
unfoldable pub signal_role : Os → Key → Process → Signal → World → World × Delivery
signal_role os key p s w =
    if or_default (lookup key w.supervisor.new_sessions) true
    then terminate_process_group os p s w
    else send_signal os p s w

-- An exception of the first step skips the next one.
abbrev pub and_then : (World → World × Delivery) → World × Delivery → World × Delivery
and_then next (w, delivered) = next w
and_then next (w, no_process) = (w, no_process)
and_then next (w, not_permitted) = (w, not_permitted)
and_then next (w, os_error) = (w, os_error)

abbrev pub finish : Signal → Key → World → World × Delivery
finish s key w = (sweep s key w, delivered)

-- `SIGKILL`, and the two more seconds.
unfoldable pub kill_if_alive : Os → ℕ → Key → Process → World × Option ℤ → World × Delivery
kill_if_alive os fuel key p (w, some code) = finish sigkill key w
kill_if_alive os fuel key p (w, none) =
    and_then (λ v. finish sigkill key (await_exit os p (os.now v.calls + 2000) fuel (tick v)))
      (signal_role os key p sigkill w)

-- What follows `SIGTERM`: the wait until the deadline, and one more look.
unfoldable pub wait_and_kill : Os → ℕ → ℕ → Key → Process → World → World × Delivery
wait_and_kill os fuel timeout key p w =
    let v = sweep sigterm key w in
    kill_if_alive os fuel key p
      (poll os p (await_exit os p (os.now v.calls + timeout) fuel (tick v)))

unfoldable pub stop_process : Os → ℕ → ℕ → Key → Process → World × Option ℤ → World × Delivery
stop_process os fuel timeout key p (w, some code) =
    (sweep sigkill key (sweep sigterm key w), delivered)
stop_process os fuel timeout key p (w, none) =
    and_then (wait_and_kill os fuel timeout key p) (signal_role os key p sigterm w)

abbrev pub stop_known : Os → ℕ → ℕ → Key → World → Option Process → World × Delivery
stop_known os fuel timeout key w none = (sweep sigkill key (sweep sigterm key w), delivered)
stop_known os fuel timeout key w (some p) = stop_process os fuel timeout key p (poll os p w)

-- `stop`; where no process is known, what the command has started is ended all the same.
unfoldable pub stop : Os → ℕ → ℕ → Key → World → World × Delivery
stop os fuel timeout key w = stop_known os fuel timeout key w (lookup key w.supervisor.processes)

abbrev pub request_process : Os → Key → Process → World × Option ℤ → World × Delivery
request_process os key p (w, some code) = (w, delivered)
request_process os key p (w, none) = signal_role os key p sigterm w

abbrev pub request_known : Os → Key → World → Option Process → World × Delivery
request_known os key w none = (w, delivered)
request_known os key w (some p) = request_process os key p (poll os p w)

-- `request_stop`
unfoldable pub request_stop : Os → Key → World → World × Delivery
request_stop os key w = request_known os key w (lookup key w.supervisor.processes)

abbrev pub insert_path : Key → Option String → Dict Key String → Dict Key String
insert_path key none paths = paths
insert_path key (some path) paths = insert key path paths

-- The entries of a new process.
abbrev pub registered :
    Key
    → Process
    → List String
    → Option String
    → Bool
    → Option String
    → RoleSupervisor
    → RoleSupervisor
registered key p command log_path new_session operation_id s = record {
  processes = insert key p s.processes;
  commands = insert key command s.commands;
  logs = insert_path key log_path s.logs;
  new_sessions = insert key new_session s.new_sessions;
  operation_ids = insert key operation_id s.operation_ids;
}

abbrev pub launched :
    Os → Key → List String → Bool → Option String → World → Option ℕ → World × Delivery
launched os key command new_session operation_id w none = (w, os_error)
launched os key command new_session operation_id w (some pid) =
    let v = noted (spawns key pid) w in
    (
      record v {
        supervisor =
            registered key (child pid) command (some (os.log_path key)) new_session operation_id
              v.supervisor;
      },
      delivered,
    )

-- The log, `subprocess.Popen`, and what is kept of it; an exception leaves the tables as they are.
unfoldable pub launch : Os → Key → List String → Bool → Option String → World → World × Delivery
launch os key command new_session operation_id w =
    launched os key command new_session operation_id (tick w) (os.spawn w.calls)

abbrev pub is_command : Option (List String) → List String → Bool
is_command none command = false
is_command (some words) command = list_beq string_eq.equal words command

-- Does the process at hand run the command for the operation?
abbrev pub is_same : Key → List String → Option String → RoleSupervisor → Bool
is_same key command operation_id s =
    is_command (lookup key s.commands) command
    && or_default (lookup key s.operation_ids) none == operation_id

unfoldable pub start_over :
    Os
    → ℕ
    → Key
    → List String
    → Bool
    → Option String
    → Process
    → World × Option ℤ
    → World × Delivery
start_over os fuel key command new_session operation_id p (w, some code) =
    launch os key command new_session operation_id w
start_over os fuel key command new_session operation_id p (w, none) =
    if is_same key command operation_id w.supervisor
    then (w, delivered)
    else and_then (launch os key command new_session operation_id) (stop os fuel 10000 key w)

abbrev pub start_known :
    Os → ℕ → Key → List String → Bool → Option String → World → Option Process → World × Delivery
start_known os fuel key command new_session operation_id w none =
    launch os key command new_session operation_id w
start_known os fuel key command new_session operation_id w (some p) =
    start_over os fuel key command new_session operation_id p (poll os p w)

-- `start`
unfoldable pub start : Os → ℕ → Key → List String → Bool → Option String → World → World × Delivery
start os fuel key command new_session operation_id w =
    start_known os fuel key command new_session operation_id w (lookup key w.supervisor.processes)
