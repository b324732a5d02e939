-- ===== src/Recovery/Tests.antt =====
-- A journal record and the runtime that it describes.
use tokenity.Common.{◌≡◌, refl, some, string_eq, nat_eq, is_part}
use tokenity.Recovery.{
  JournalInstance, World, process_command_mismatch, JournalRecord, Identity, text, number, null,
  status, safe_to_adopt, assess_runtime, assess_process, assess_instance, assess_recovery_record,
}
use tokenity.Recovery.Exclusion.{adoption_exclusive}

abbrev identity : Identity
identity = record {
  instance_id = text "i";
  operation_id = text "o";
  model_revision = null;
  world_size = number 2;
  connection_mode = text "ring";
}

abbrev journal : JournalRecord
journal = record {
  model_instance = some (record { identity = identity; resolved_path = text "/m" });
  process = some (record { pid = some 7; start_identity = some "Mon" });
  status_path = some "/s";
  rank = some 0;
}

abbrev world : World
world = record {
  start_identity = λ pid. some "Mon";
  command = λ pid. some "python -m tokenity distributed-openai serve --model /m";
  str_number = λ n. "2";
  status_file = λ path.
      status (record {
        updated_at = some 100;
        identity = identity;
        rank = some 0;
        phase = some "ready";
      });
}

adopts : assess_recovery_record world 110 15 journal ≡ safe_to_adopt
unfolding assess_recovery_record assess_instance assess_process assess_runtime is_part
adopts = refl

-- The process was replaced by another program under its number.
abbrev replaced : World
replaced = record world { command = λ pid. some "python -m http.server /m" }

refuses : assess_recovery_record replaced 110 15 journal ≡ process_command_mismatch
unfolding assess_recovery_record assess_instance assess_process is_part
refuses = refl

-- A second record of the same runtime, under another process number.
abbrev second : JournalRecord
second = record journal { process = some (record { pid = some 8; start_identity = some "Mon" }) }

adopts_second : assess_recovery_record world 112 15 second ≡ safe_to_adopt
unfolding assess_recovery_record assess_instance assess_process assess_runtime is_part
adopts_second = refl

adoption_exclusive_example :
    (a : JournalInstance) × (b : JournalInstance) × (journal.model_instance ≡ some a)
    × (second.model_instance ≡ some b)
    × (a.identity ≡ b.identity)
    × (journal.rank ≡ second.rank)
adoption_exclusive_example =
    adoption_exclusive world 110 112 15 journal second adopts adopts_second refl
