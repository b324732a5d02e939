-- ===== src/Agent/Orphans.antt =====
-- `cleanup_startup_orphan` of tokenity/node_agent/agent.py: a process that an earlier agent has left, and
-- that is stopped on request.
--
-- The process table is what each look at it finds, in order: it is the argument `Table`, so that the
-- process may end and its number be used again at any time. A look and the signal right behind it are
-- one step. The requests to the other nodes and to the runtime itself are left out.
pub mod Fence
pub mod Silence
mod Tests
use tokenity.Common.{
  ℕ, zero, suc, ◌+◌, Bool, true, false, if◌then◌else◌, ◌==◌, ◌&&◌, ◌||◌, not, ltb, contains, List,
  [], ◌∷◌, Option, none, some, is_part, String, string_eq,
}
use tokenity.Supervisor.Handles.{Signal, sigterm, sigkill, has_identity}

-- An entry of the journal that has its parts; `command` is joined by blanks.
pub record Journaled : Type 0 where
  pub instance_id : String
  pub start_identity : String
  pub resolved_path : String
  pub command : String
  pub role : String

-- The state of the process by `ps`.
pub data Stat : Type 0 where
  ps_fails no_state zombie runs : Stat

-- What `os.getpgid` and `os.killpg` answer: no exception, `ProcessLookupError` or `PermissionError`, which
-- are what there is for a valid signal.
pub data Answer : Type 0 where
  delivered no_process not_permitted : Answer

pub record Table : Type 0 where
  pub process_start_identity : ℕ → Option String
  pub process_command : ℕ → Option String
  pub stat : ℕ → Stat
  pub killpg : ℕ → Answer
  pub now : ℕ → ℕ

-- The number of looks so far, and the signals sent, the latest first, each with its look.
pub record Cleaning : Type 0 where
  pub looks : ℕ
  pub signals_sent : List (ℕ × Signal)

abbrev pub looked : Cleaning → Cleaning
looked s = record s { looks = s.looks + 1 }

pub data CleanupState : Type 0 where
  orphaned cleaned : CleanupState

-- What the audit says: the state, whether a clean-up is still asked for and was safe; and whether the
-- agent drops its record of the orphan, and what is stored of the instance.
pub record Audit : Type 0 where
  pub state : CleanupState
  pub cleanup_required : Bool
  pub cleanup_safe : Bool
  pub drops_record : Bool
  pub drops_instance : Bool

abbrev pub in_command : (String → Bool) → Option String → Bool
in_command test none = false
in_command test (some command) = test command

abbrev pub is_alive : Stat → Bool
is_alive runs = true
is_alive _ = false

module _ (table : Table) (record_of : Journaled) where
  abbrev pub is_video : Bool
  is_video = contains record_of.role ("minimax-h3-video" ∷ "minimax-h3-video-rank" ∷ [])

  -- What the command must hold for the role.
  abbrev pub fits_role : String → Bool
  fits_role observed =
      if is_video
      then (is_part "tokenity minimax-h3-video serve --binary" observed
          || is_part "mlx-serve --model" observed)
        && is_part "tokenity minimax-h3-video serve --binary" record_of.command
      else contains record_of.role
          ("distributed-openai" ∷ "distributed-openai-rank" ∷ "single-node-openai" ∷ [])
        && is_part "tokenity distributed-openai serve --model" observed
        && is_part "tokenity distributed-openai serve --model" record_of.command

  -- `orphan_process_identity_matches`, at a look
  unfoldable pub identity_matches : ℕ → Bool
  identity_matches n =
      has_identity (table.process_start_identity n) record_of.start_identity
      && in_command (is_part record_of.resolved_path) (table.process_command n)
      && is_part record_of.resolved_path record_of.command
      && in_command fits_role (table.process_command n)

  -- `exact_orphan_process_running`, at a look
  unfoldable pub exact_running : ℕ → Bool
  exact_running n = identity_matches n && is_alive (table.stat n)

  abbrev pub sent : Signal → Answer → Cleaning → Cleaning
  sent signal delivered s = record s { signals_sent = (s.looks, signal) ∷ s.signals_sent }
  sent signal _ s = s

  -- A signal, where the process runs; the exceptions of `killpg` are passed over.
  unfoldable pub signal_exact : Signal → Cleaning → Cleaning
  signal_exact signal s =
      if exact_running s.looks then looked (sent signal (table.killpg s.looks) s) else looked s

  -- The wait of three seconds. The fuel counts the looks.
  unfoldable pub await_end : ℕ → ℕ → Cleaning → Cleaning
  await_end deadline zero s = s
  await_end deadline (suc fuel) s =
      let rest = await_end deadline fuel (looked s) in
      if exact_running s.looks && ltb (table.now s.looks) deadline then rest else looked s

  -- Behind the second signal.
  unfoldable pub conclude : Cleaning → Audit × Cleaning
  conclude s =
      if exact_running s.looks
      then (
        record {
          state = orphaned;
          cleanup_required = true;
          cleanup_safe = true;
          drops_record = false;
          drops_instance = false;
        },
        looked s,
      )
      else (
        record {
          state = cleaned;
          cleanup_required = false;
          cleanup_safe = true;
          drops_record = true;
          drops_instance = not (record_of.instance_id == "");
        },
        looked s,
      )

  abbrev pub stop_exact : ℕ → Cleaning → Audit × Cleaning
  stop_exact fuel s =
      let t = signal_exact sigterm s in
      conclude (signal_exact sigkill (await_end (table.now t.looks + 3000) fuel t))

  -- The clean-up with a record: one of a changed identity is dropped, and what is stored stays.
  unfoldable pub cleanup_recorded : ℕ → Cleaning → Audit × Cleaning
  cleanup_recorded fuel s = if identity_matches s.looks then stop_exact fuel (looked s) else (
    record {
      state = orphaned;
      cleanup_required = true;
      cleanup_safe = false;
      drops_record = true;
      drops_instance = false;
    },
    looked s,
  )

-- `cleanup_startup_orphan`, with the record of the process number if there is one
unfoldable pub cleanup_startup_orphan : Table → Option Journaled → ℕ → Cleaning → Audit × Cleaning
cleanup_startup_orphan table none fuel s = (
  record {
    state = orphaned;
    cleanup_required = true;
    cleanup_safe = false;
    drops_record = false;
    drops_instance = false;
  },
  s,
)
cleanup_startup_orphan table (some j) fuel s = cleanup_recorded table j fuel s
