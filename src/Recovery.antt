-- ===== src/Recovery.antt =====
-- `assess_recovery_record` of tokenity/node_agent/recovery.py: may an agent that was restarted
-- adopt the process that a journal record describes?
--
-- The journal and the status file are what their JSON holds; a field of a wrong type is `none`
-- where the code tests for the type. What the process table says is an argument.
pub mod Exclusion
mod Tests
use tokenity.Common.{
  ℕ, ◌+◌, Bool, true, false, if◌then◌else◌, ltb, ◌==◌, ◌||◌, ◌&&◌, not, any, List, [], ◌∷◌, Option,
  none, some, is_none, or_default, String, Dict, string_eq, nat_eq, option_eq, is_part,
}

-- A value of JSON that the code compares: null or missing, a number, or a text.
pub data Value : Type 0 where
  null : Value
  number : ℕ → Value
  text : String → Value

abbrev pub value_beq : Value → Value → Bool
value_beq null null = true
value_beq (number a) (number b) = a == b
value_beq (text a) (text b) = a == b
value_beq _ _ = false

-- `value is None or value == ""`
abbrev pub is_blank : Value → Bool
is_blank null = true
is_blank (number n) = false
is_blank (text s) = s == ""

-- The fields that identify an instance, in the journal and in the status file.
pub record Identity : Type 0 where
  pub instance_id : Value
  pub operation_id : Value
  pub model_revision : Value
  pub world_size : Value
  pub connection_mode : Value

pub record JournalInstance : Type 0 where
  pub identity : Identity
  pub resolved_path : Value

pub record JournalProcess : Type 0 where
  pub pid : Option ℕ
  pub start_identity : Option String

pub record JournalRecord : Type 0 where
  pub model_instance : Option JournalInstance
  pub process : Option JournalProcess
  pub status_path : Option String
  pub rank : Option ℕ

pub record RuntimeStatus : Type 0 where
  pub updated_at : Option ℕ
  pub identity : Identity
  pub rank : Option ℕ
  pub phase : Option String

pub data StatusFile : Type 0 where
  unreadable invalid : StatusFile
  status : RuntimeStatus → StatusFile

-- `process_start_identity`, `process_command` and the status file; and Python's `str` of a number
pub record World : Type 0 where
  pub start_identity : ℕ → Option String
  pub command : ℕ → Option String
  pub status_file : String → StatusFile
  pub str_number : ℕ → String

-- `str(value)`
abbrev pub str : World → Value → String
str w null = "None"
str w (number n) = w.str_number n
str w (text s) = s

-- The command is a text server's, and names the path of the model.
abbrev pub serves_model : World → String → Value → Bool
serves_model w command path =
    is_part "tokenity distributed-openai serve --model" command && is_part (str w path) command

-- `reason`; all but the last refuse.
pub data Assessment : Type 0 where
  journal_schema_invalid journal_identity_incomplete process_identity_incomplete process_missing
        process_start_identity_mismatch process_command_unavailable process_command_mismatch
        runtime_status_path_missing runtime_status_unreadable runtime_status_invalid
        runtime_heartbeat_stale runtime_identity_mismatch runtime_rank_mismatch runtime_ended
        safe_to_adopt :
      Assessment

abbrev pub identity_beq : Identity → Identity → Bool
identity_beq a b =
    value_beq a.instance_id b.instance_id
    && value_beq a.operation_id b.operation_id
    && value_beq a.model_revision b.model_revision
    && value_beq a.world_size b.world_size
    && value_beq a.connection_mode b.connection_mode

abbrev pub is_incomplete : JournalInstance → Bool
is_incomplete i = any is_blank (
    i.identity.instance_id ∷ i.identity.operation_id ∷ i.resolved_path ∷ i.identity.world_size
    ∷ i.identity.connection_mode ∷ [])

-- `not isinstance(updated_at, (int, float)) or now - updated_at > maximum`
abbrev pub is_old : ℕ → ℕ → Option ℕ → Bool
is_old now maximum none = true
is_old now maximum (some at) = ltb (at + maximum) now

abbrev pub has_ended : Option String → Bool
has_ended none = false
has_ended (some p) = p == "failed" || p == "stopping"

-- `not isinstance(rank, int) or runtime.get("rank") != rank`
abbrev pub rank_differs : Option ℕ → Option ℕ → Bool
rank_differs none actual = true
rank_differs (some r) actual = not (actual == some r)

-- The tests of the status file's content.
unfoldable pub assess_runtime : ℕ → ℕ → JournalRecord → JournalInstance → RuntimeStatus → Assessment
assess_runtime now maximum j i s =
    if is_old now maximum s.updated_at
    then runtime_heartbeat_stale
    else if not (identity_beq s.identity i.identity)
    then runtime_identity_mismatch
    else if rank_differs j.rank s.rank
    then runtime_rank_mismatch
    else if has_ended s.phase
    then runtime_ended
    else safe_to_adopt

abbrev pub assess_file : ℕ → ℕ → JournalRecord → JournalInstance → StatusFile → Assessment
assess_file now maximum j i unreadable = runtime_status_unreadable
assess_file now maximum j i invalid = runtime_status_invalid
assess_file now maximum j i (status s) = assess_runtime now maximum j i s

-- The tests of the process, and then of the status file.
unfoldable pub assess_process :
    World → ℕ → ℕ → JournalRecord → JournalInstance → ℕ → String → Assessment
assess_process w now maximum j i pid recorded = elim (w.start_identity pid) [
  | none ↦ process_missing
  | some observed ↦
      (if not (observed == recorded)
        then process_start_identity_mismatch
        else elim (w.command pid) [
          | none ↦ process_command_unavailable
          | some command ↦
              (if not (serves_model w command i.resolved_path)
                then process_command_mismatch
                else elim j.status_path [
                  | none ↦ runtime_status_path_missing
                  | some path ↦ assess_file now maximum j i (w.status_file path)
                ])
        ])
]

-- `not isinstance(pid, int) or pid <= 0 or not isinstance(recorded_start, str)`
unfoldable pub assess_instance :
    World → ℕ → ℕ → JournalRecord → JournalInstance → Option ℕ → Option String → Assessment
assess_instance w now maximum j i (some pid) (some recorded) =
    if pid == 0 then process_identity_incomplete else assess_process w now maximum j i pid recorded
assess_instance w now maximum j i _ _ = process_identity_incomplete

-- `assess_recovery_record`
unfoldable pub assess_recovery_record : World → ℕ → ℕ → JournalRecord → Assessment
assess_recovery_record w now maximum j = elim j.model_instance [
  | none ↦ journal_schema_invalid
  | some i ↦ elim j.process [
    | none ↦ journal_schema_invalid
    | some p ↦
        (if is_incomplete i
          then journal_identity_incomplete
          else assess_instance w now maximum j i p.pid p.start_identity)
  ]
]
