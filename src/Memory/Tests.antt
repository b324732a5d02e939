-- ===== src/Memory/Tests.antt =====
-- The memory that a small report offers.
use tokenity.Common.{◌≡◌, refl, some, pos}
use tokenity.Errors.{ok}
use tokenity.Ratio.{finite}
use tokenity.Memory.{MemoryReport, live_system_available_memory_bytes}

abbrev report : MemoryReport
report = record {
  total_bytes = some (pos 1000);
  in_use_bytes = some (pos 500);
  pressure_available_ratio = some (finite (pos 450000));
}

offered : live_system_available_memory_bytes report (finite (pos 100000)) ≡ ok (some 350)
unfolding live_system_available_memory_bytes
offered = refl
