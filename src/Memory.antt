-- ===== src/Memory.antt =====
-- `live_system_available_memory_bytes` and `MemoryReservationBreakdown` of
-- tokenity/control/instances.py: how much memory a new reservation may take, and how large a
-- reservation should be once the memory in use was observed.
mod Tests
use tokenity.Common.{
  ℕ, ◌+◌, ◌-◌, ◌≤◌, ◌≡◌, Bool, true, false, if◌then◌else◌, ltb, leb, Option, none, some, or_default,
  min, max, ℤ, pos, negsuc, pos_part,
}
use tokenity.Errors.{Result, ok, err, value_error, overflow_error, ◌>>=◌}
use tokenity.Ratio.{
  Ratio, finite, infinity, minus_infinity, not_a_number, unit, clamp_headroom, scale, scale_up,
  min_ratio, max_ratio, zero_ratio, one_ratio,
}

-- The entries of the memory report that the function reads; `none` where an entry is missing or
-- not a number.
pub record MemoryReport : Type 0 where
  pub total_bytes : Option ℤ
  pub in_use_bytes : Option ℤ
  pub pressure_available_ratio : Option Ratio

-- `int(total * (a - b))`, cut off at 0: NaN makes `int` raise.
unfoldable pub share : ℕ → Ratio → Ratio → Result ℕ
unfolding scale
share total (finite a) (finite b) = ok (scale total (pos_part a - pos_part b))
share total _ _ = err value_error

-- The bound by the pages in use: `max(0, usable_limit - in_use)`.
unfoldable pub in_use_candidate : ℕ → Ratio → Option ℤ → Result (Option ℕ)
unfolding share
in_use_candidate total headroom (some (pos used)) = do
  limit ← share total one_ratio headroom
  ok (some (limit - used))
in_use_candidate total headroom _ = ok none

-- The bound by memory pressure.
unfoldable pub pressure_candidate : ℕ → Ratio → Option Ratio → Result (Option ℕ)
unfolding share
pressure_candidate total headroom none = ok none
pressure_candidate total headroom (some p) = do
  n ← share total (min_ratio (max_ratio p zero_ratio) one_ratio) headroom
  ok (some n)

-- `min(candidates) if candidates else None`
abbrev pub least : Option ℕ → Option ℕ → Option ℕ
least none b = b
least (some a) none = some a
least (some a) (some b) = some (min a b)

unfoldable pub live_with_total : ℕ → Ratio → MemoryReport → Result (Option ℕ)
unfolding in_use_candidate pressure_candidate
live_with_total total headroom report = do
  a ← in_use_candidate total headroom report.in_use_bytes
  b ← pressure_candidate total headroom report.pressure_available_ratio
  ok (least a b)

abbrev positive : Option ℤ → Option ℕ
positive (some (pos n)) = if ltb 0 n then some n else none
positive _ = none

-- `live_system_available_memory_bytes(memory, minimum_headroom_ratio)`
unfoldable pub live_system_available_memory_bytes : MemoryReport → Ratio → Result (Option ℕ)
unfolding live_with_total clamp_headroom
live_system_available_memory_bytes report minimum = elim (positive report.total_bytes) [
  | none ↦ ok none
  | some total ↦ live_with_total total (clamp_headroom minimum) report
]

-- The constructor refuses negative numbers, so the fields are natural numbers.
pub record MemoryReservationBreakdown : Type 0 where
  pub weights_bytes : ℕ
  pub kv_cache_bytes : ℕ
  pub prompt_cache_bytes : ℕ
  pub mlx_cache_bytes : ℕ
  pub runtime_peak_bytes : ℕ
  pub os_headroom_bytes : ℕ
  pub legacy_unattributed_bytes : ℕ
  pub observed_peak_bytes : Option ℕ
  pub observed_footprint_bytes : Option ℕ

unfoldable pub estimated_total_bytes : MemoryReservationBreakdown → ℕ
estimated_total_bytes b =
    b.weights_bytes + b.kv_cache_bytes + b.prompt_cache_bytes + b.mlx_cache_bytes
    + b.runtime_peak_bytes + b.os_headroom_bytes + b.legacy_unattributed_bytes

unfoldable pub protected_floor_bytes : MemoryReservationBreakdown → ℕ
protected_floor_bytes b =
    b.weights_bytes + b.kv_cache_bytes + b.prompt_cache_bytes + b.mlx_cache_bytes
    + b.os_headroom_bytes

-- `max` of the observations that are there.
abbrev pub largest : Option ℕ → Option ℕ → Option ℕ
largest none b = b
largest (some a) none = some a
largest (some a) (some b) = some (max a b)

unfoldable pub observed_local_bytes : MemoryReservationBreakdown → Option ℕ
observed_local_bytes b = largest b.observed_peak_bytes b.observed_footprint_bytes

unfoldable pub with_observation :
    Option ℕ → Option ℕ → MemoryReservationBreakdown → MemoryReservationBreakdown
with_observation peak footprint b = record b {
  observed_peak_bytes = peak;
  observed_footprint_bytes = footprint;
}

-- `math.ceil(observed * (1.0 + safety_margin_ratio))`: the margin is no NaN or infinity, or `ceil`
-- raises.
unfoldable pub with_margin : ℕ → Ratio → Result ℕ
unfolding scale_up
with_margin observed (finite r) = ok (scale_up observed (unit + pos_part r))
with_margin observed infinity = if ltb 0 observed then err overflow_error else err value_error
with_margin observed _ = err value_error

-- `safety_margin_ratio < 0`
abbrev pub is_negative_ratio : Ratio → Bool
is_negative_ratio (finite (negsuc _)) = true
is_negative_ratio minus_infinity = true
is_negative_ratio _ = false

unfoldable pub recommended_reservation_bytes : Ratio → MemoryReservationBreakdown → Result ℕ
unfolding estimated_total_bytes protected_floor_bytes observed_local_bytes with_margin
recommended_reservation_bytes margin b =
    if is_negative_ratio margin then err value_error else elim (observed_local_bytes b) [
      | none ↦ ok (estimated_total_bytes b)
      | some observed ↦ (do
        target ← with_margin observed margin
        ok (max (protected_floor_bytes b) target))
    ]
