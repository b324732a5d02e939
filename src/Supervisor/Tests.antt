-- ===== src/Supervisor/Tests.antt =====
-- A node that has taken over a process, whose number is another process's later.
use tokenity.Common.{
  ◌≡◌, refl, true, false, if◌then◌else◌, ◌==◌, ltb, [], ◌∷◌, none, some, lookup, pair_eq, option_eq,
  string_eq,
}
use tokenity.Supervisor.{stop, start, stop_process, signal_role, wait_and_kill, kill_if_alive}
use tokenity.Supervisor.Handles.{
  sigterm, child, spawns, adopted, delivered, Os, Key, signals, sees_exit, ps_silent, World, poll,
  send_group_signal, terminate_process_group, await_exit,
}
use tokenity.Supervisor.Replace.{Started, start-Started, start-silent}
use tokenity.Supervisor.Adopt.{IsAdoption, adopt, adopt-IsAdoption}

-- Process 7 was started on Monday, until the fifth call.
abbrev os : Os
os = record {
  process_start_identity = λ n pid. some (if ltb n 5 then "monday" else "tuesday");
  is_zombie = λ n pid. some false;
  exit_code = λ n pid. none;
  killpg = λ n pid. delivered;
  kill = λ n pid. delivered;
  spawn = λ n. some 8;
  log_path = λ key. key.0;
  now = λ n. n;
}

abbrev worker : Key
worker = ("worker", some "i-1")

abbrev taken_over : World
taken_over = record {
  supervisor = record {
    processes = (worker, adopted 7 "monday") ∷ [];
    commands = (worker, "serve" ∷ []) ∷ [];
    logs = [];
    new_sessions = (worker, true) ∷ [];
    operation_ids = (worker, some "op-1") ∷ [];
  };
  calls = 0;
  trace = [];
}

-- One time at which `ps` does not answer.
abbrev silent : Os
silent = record os { is_zombie = λ n pid. none }

no_second_signal :
    (stop os 9 10000 worker taken_over).0.trace
    ≡ sees_exit (adopted 7 "monday")
      ∷ sees_exit (adopted 7 "monday")
      ∷ signals 2 (adopted 7 "monday") sigterm delivered
      ∷ []
unfolding stop stop_process signal_role wait_and_kill kill_if_alive poll send_group_signal
    terminate_process_group await_exit lookup
no_second_signal = refl

known : lookup worker taken_over.supervisor.processes ≡ some (adopted 7 "monday")
unfolding lookup
known = refl

start-Started_example :
    Started os worker 9
      ("serve" ∷ "--new" ∷ [])
      true
      (some "op-2")
      (adopted 7 "monday")
      taken_over
      (start os 9 worker ("serve" ∷ "--new" ∷ []) true (some "op-2") taken_over)
    × ((other : Key)
        → (worker == other) ≡ false
        → lookup other
            (start os 9 worker
              ("serve" ∷ "--new" ∷ [])
              true
              (some "op-2")
              taken_over).0.supervisor.processes
          ≡ lookup other taken_over.supervisor.processes)
start-Started_example =
    start-Started os worker 9 ("serve" ∷ "--new" ∷ []) true (some "op-2") taken_over
      (adopted 7 "monday") known

adopt-IsAdoption_example :
    IsAdoption os worker 7 "tuesday"
      ("serve" ∷ [])
      none
      "op-1"
      taken_over
      (adopt os worker 7 "tuesday" ("serve" ∷ []) none "op-1" taken_over)
adopt-IsAdoption_example =
    adopt-IsAdoption os worker 7 "tuesday" ("serve" ∷ []) none "op-1" taken_over

start-silent_example :
    (lookup worker
        (start silent 9 worker ("serve" ∷ []) true (some "op-2") taken_over).0.supervisor.processes
      ≡ some (child 8))
    × ((start silent 9 worker ("serve" ∷ []) true (some "op-2") taken_over).0.trace
        ≡ spawns worker 8 ∷ ps_silent (adopted 7 "monday") ∷ [])
    × ((start silent 9 worker ("serve" ∷ []) true (some "op-2") taken_over).1 ≡ delivered)
start-silent_example =
    start-silent silent worker 9 ("serve" ∷ []) true (some "op-2") taken_over 7 8 "monday" known
      refl refl refl
