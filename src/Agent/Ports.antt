-- ===== src/Agent/Ports.antt =====
-- `_allocate_instance_port` and `_allocate_collective_port` of tokenity/node_agent/agent.py: the ports
-- that a new instance asks the ledger for. An answer `none` is the HTTP error 409.
--
-- The probe `_tcp_port_available` binds a socket: it is the argument `tcp_port_available`.
pub mod Search
pub mod Reserve
mod Tests
use tokenity.Common.{
  ℕ, zero, suc, ◌+◌, ◌-◌, Bool, true, false, if◌then◌else◌, ◌&&◌, not, List, [], ◌∷◌, ◌++◌, Option,
  none, some, min, max, contains, any, all, map, nat_eq,
}
use tokenity.Agent.{range}
use tokenity.Ledger.{ResourceLedger}

-- The keys of `ports` and of `quarantined_ports`.
unfoldable pub reserved_ports : ResourceLedger → List ℕ
reserved_ports l = map (λ e. e.0) l.ports ++ map (λ e. e.0) l.quarantined_ports

-- The loop: the first number that passes the tests is returned.
unfoldable pub first_such : (ℕ → Bool) → List ℕ → Option ℕ
first_such test [] = none
first_such test (port ∷ ports) = if test port then some port else first_such test ports

abbrev pub and_start : ℕ → Option ℕ → Option (ℕ × ℕ)
and_start port none = none
and_start port (some starting_port) = some (port, starting_port)

module _ (tcp_port_available : ℕ → Bool) where
  abbrev pub is_free : ResourceLedger → ℕ → Bool
  is_free l port = not (contains port (reserved_ports l)) && tcp_port_available port

  unfoldable pub allocate_instance_port : ℕ → ResourceLedger → Option ℕ
  unfolding first_such
  allocate_instance_port preferred l =
      first_such (is_free l) (range preferred (min 65536 (preferred + 256) - preferred))

  abbrev pub all_free : ResourceLedger → List ℕ → ℕ → ℕ → Bool
  all_free l excluded width starting_port =
      not (any (λ port. contains port (reserved_ports l ++ excluded)) (range starting_port width))
      && all tcp_port_available (range starting_port width)

  -- The last starting port is `min(65536 - width, preferred + 255)`.
  unfoldable pub allocate_collective_port : ℕ → ℕ → ResourceLedger → List ℕ → Option ℕ
  unfolding first_such
  allocate_collective_port preferred world_size l excluded =
      let width = max 1 world_size in
      first_such (all_free l excluded width)
        (range preferred (min (65537 - width) (preferred + 256) - preferred))

  abbrev pub with_port : ℕ → ℕ → ResourceLedger → Option ℕ → Option (ℕ × ℕ)
  with_port starting_port nodes l none = none
  with_port starting_port nodes l (some port) =
      and_start port (allocate_collective_port starting_port nodes l (port ∷ []))

  -- Both ports of a request, one after the other.
  unfoldable pub allocate_ports : ℕ → ℕ → ℕ → ResourceLedger → Option (ℕ × ℕ)
  unfolding allocate_instance_port allocate_collective_port
  allocate_ports port starting_port nodes l =
      with_port starting_port nodes l (allocate_instance_port port l)

-- What the instance reserves.
unfoldable pub instance_ports : ℕ × ℕ → ℕ → List ℕ
unfolding range
instance_ports (port, starting_port) nodes = port ∷ range starting_port (max 1 nodes)
