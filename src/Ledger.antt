-- ===== src/Ledger.antt =====
-- `ResourceLedger` of tokenity/control/instances.py: the memory and the ports that a node has
-- promised to its instances. A port that is given back stays in quarantine for a while.
--
-- Every method that changes the ledger takes the ledger's lock for its whole body, so it is one
-- step here. The monotonic clock is a natural number of ticks, read as the argument `now`.
pub mod Calls
pub mod Ports
pub mod Quarantine
pub mod Budget
pub mod Reserve
mod Tests
use tokenity.Common.{
  ℕ, ◌+◌, ◌-◌, Bool, true, false, if◌then◌else◌, ltb, leb, ◌==◌, ◌&&◌, ◌||◌, not, is_none, any,
  keep, List, [], ◌∷◌, Option, none, some, or_default, min, max, String, Dict, lookup, insert,
  erase, ℤ, pos, negsuc, pos_part, is_neg, nat_eq, string_eq,
}
use tokenity.Errors.{Result, ok, err, value_error, resource_admission_error, ◌>>=◌, ◌>>◌, raise_if}
use tokenity.Ratio.{Ratio, finite, unit, clamp_headroom, scale, within}
use tokenity.Memory.{
  MemoryReservationBreakdown, with_observation, recommended_reservation_bytes, with_margin, largest,
  is_negative_ratio,
}

pub record ResourceLedger : Type 0 where
  pub total_memory_bytes : ℕ
  pub minimum_headroom_ratio : Ratio
  pub port_reuse_delay : ℕ
  pub reservations : Dict String ℕ
  pub ports : Dict ℕ String
  pub quarantined_ports : Dict ℕ ℕ

-- `__init__`
unfoldable pub init : ℤ → Ratio → ℤ → Result ResourceLedger
unfolding clamp_headroom
init total headroom delay = do
  raise_if (is_neg total) value_error
  raise_if (is_neg delay) value_error
  ok (record {
    total_memory_bytes = pos_part total;
    minimum_headroom_ratio = clamp_headroom headroom;
    port_reuse_delay = pos_part delay;
    reservations = [];
    ports = [];
    quarantined_ports = [];
  })

-- `_prune_port_quarantine`
unfoldable pub prune_port_quarantine : ℕ → ResourceLedger → ResourceLedger
prune_port_quarantine now l = record l {
  quarantined_ports = keep (λ e. not (leb e.1 now)) l.quarantined_ports;
}

abbrev pub total_of : Dict String ℕ → ℕ
total_of [] = 0
total_of ((k, n) ∷ d) = n + total_of d

unfoldable pub reserved_memory_bytes : ResourceLedger → ℕ
reserved_memory_bytes l = total_of l.reservations

abbrev pub check_headroom : Ratio → Result ℕ
check_headroom (finite (pos n)) = if within (finite (pos n)) 900000 then ok n else err value_error
check_headroom _ = err value_error

-- `_effective_headroom_ratio`, as the number of millionths that passed its check.
unfoldable pub effective_headroom_ratio : Option Ratio → ResourceLedger → Result ℕ
effective_headroom_ratio value l = check_headroom (or_default value l.minimum_headroom_ratio)

-- `int(self.total_memory_bytes * (1.0 - headroom_ratio))`
unfoldable pub usable_memory : Option Ratio → ResourceLedger → Result ℕ
unfolding effective_headroom_ratio scale
usable_memory value l = do
  n ← effective_headroom_ratio value l
  ok (scale l.total_memory_bytes (unit - n))

abbrev pub bounded_by_system : Option ℤ → ℕ → ℕ
bounded_by_system none n = n
bounded_by_system (some z) n = min n (pos_part z)

-- `_available_memory_bytes`; `max(0, a - b)` is the subtraction of ℕ.
unfoldable pub available_memory_bytes : Option ℤ → Option Ratio → ResourceLedger → Result ℕ
unfolding usable_memory reserved_memory_bytes
available_memory_bytes system value l = do
  usable ← usable_memory value l
  ok (bounded_by_system system (usable - reserved_memory_bytes l))

abbrev pub owned_by_other : String → Option String → Bool
owned_by_other id none = false
owned_by_other id (some owner) = not (owner == id)

-- `port in self._quarantined_ports or (port in self._ports and self._ports[port] != instance_id)`
unfoldable pub port_conflict : String → ResourceLedger → ℕ → Bool
port_conflict id l port =
    not (is_none (lookup port l.quarantined_ports)) || owned_by_other id (lookup port l.ports)

-- `for port in ports: self._ports[port] = instance_id`
unfoldable pub assign_ports : String → List ℕ → Dict ℕ String → Dict ℕ String
assign_ports id [] d = d
assign_ports id (p ∷ ps) d = assign_ports id ps (insert p id d)

abbrev pub is_negative_option : Option ℤ → Bool
is_negative_option none = false
is_negative_option (some z) = is_neg z

-- The two guards before the lock is taken.
abbrev pub check_amounts : ℤ → Option ℤ → Result (Unit {0})
check_amounts memory system = do
  raise_if (is_neg memory) resource_admission_error
  raise_if (is_negative_option system) resource_admission_error

-- The body of `reserve` behind the pruning.
unfoldable pub admit :
    String → ℕ → List ℕ → Option ℤ → Option Ratio → ResourceLedger → Result ResourceLedger
unfolding available_memory_bytes port_conflict assign_ports
admit id memory ports system value l = do
  let current = or_default (lookup id l.reservations) 0
  available ← available_memory_bytes system value l
  raise_if (ltb available (memory - current)) resource_admission_error
  raise_if (any (port_conflict id l) ports) resource_admission_error
  ok (record l {
    reservations = insert id memory l.reservations;
    ports = assign_ports id ports l.ports;
  })

-- The ledger that a caller is left with, and what the call returned or raised.
abbrev pub settle {ℓ} :
    {A : Type ℓ} → ResourceLedger → Result (ResourceLedger × A) → ResourceLedger × Result A
settle l (ok (m, a)) = (m, ok a)
settle l (err e) = (l, err e)

-- `reserve`; the pruning is kept also where the reservation is refused.
unfoldable pub reserve :
    String
    → ℤ
    → List ℕ
    → Option ℤ
    → Option Ratio
    → ℕ
    → ResourceLedger
    → ResourceLedger × Result (Unit {0})
unfolding prune_port_quarantine
reserve id memory ports system value now l = elim (check_amounts memory system) [
  | err e ↦ (l, err e)
  | ok _ ↦
      (let pruned = prune_port_quarantine now l in
        settle pruned (do m ← admit id (pos_part memory) ports system value pruned; ok (m, tt)))
]

abbrev pub known_reservation : Option ℕ → Result ℕ
known_reservation none = err resource_admission_error
known_reservation (some n) = ok n

-- `resize`
unfoldable pub resize :
    String → ℤ → Option ℤ → Option Ratio → ResourceLedger → Result (ResourceLedger × ℕ)
unfolding usable_memory reserved_memory_bytes
resize id memory system value l = do
  check_amounts memory system
  current ← known_reservation (lookup id l.reservations)
  usable ← usable_memory value l
  let admissible = current + bounded_by_system system (usable - reserved_memory_bytes l)
  raise_if (ltb admissible (pos_part memory)) resource_admission_error
  ok (record l { reservations = insert id (pos_part memory) l.reservations }, pos_part memory)

abbrev pub or_else : Option ℕ → Option ℕ → Option ℕ
or_else none b = b
or_else (some a) b = some a

-- The size that `reconcile` asks for, from what was observed.
unfoldable pub reconcile_target :
    Option ℕ → Option ℕ → Ratio → Option MemoryReservationBreakdown → Result ℕ
unfolding with_observation recommended_reservation_bytes with_margin
reconcile_target peak footprint margin (some b) = recommended_reservation_bytes margin (
    with_observation (or_else peak b.observed_peak_bytes)
      (or_else footprint b.observed_footprint_bytes) b)
reconcile_target peak footprint margin none = elim (largest peak footprint) [
  | none ↦ err value_error
  | some observed ↦ with_margin observed margin
]

abbrev pub observation : Option ℤ → Option ℕ
observation none = none
observation (some z) = some (pos_part z)

-- `reconcile`
unfoldable pub reconcile :
    String
    → Option ℤ
    → Option ℤ
    → Ratio
    → ℤ
    → Option MemoryReservationBreakdown
    → Option ℤ
    → Option Ratio
    → ResourceLedger
    → Result (ResourceLedger × ℕ)
reconcile id peak footprint margin minimum breakdown system value l = do
  raise_if (is_negative_ratio margin) value_error
  raise_if (is_neg minimum) value_error
  raise_if (is_negative_option peak || is_negative_option footprint) value_error
  target ← reconcile_target (observation peak) (observation footprint) margin breakdown
  resize id (pos (max (pos_part minimum) target)) system value l

-- the loop of `release`: the ports of the instance, each with the end of its quarantine
unfoldable pub quarantine : String → ℕ → Dict ℕ String → Dict ℕ ℕ → Dict ℕ ℕ
quarantine id until [] q = q
quarantine id until ((port, owner) ∷ d) q =
    quarantine id until d (if owner == id then insert port until q else q)

-- `release`
unfoldable pub release : String → ℕ → ResourceLedger → ResourceLedger
unfolding quarantine
release id now l = record l {
  reservations = erase id l.reservations;
  ports = keep (λ e. not (e.1 == id)) l.ports;
  quarantined_ports =
      if ltb 0 l.port_reuse_delay
      then quarantine id (now + l.port_reuse_delay) l.ports l.quarantined_ports
      else l.quarantined_ports;
}
