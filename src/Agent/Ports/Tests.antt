-- ===== src/Agent/Ports/Tests.antt =====
-- A node on which 8080 is taken, and 9000 in quarantine.
use tokenity.Common.{
  ◌+◌, ◌-◌, ◌≤◌, ◌<◌, ◌≡◌, refl, true, false, Bool, ℕ, not, ◌==◌, nat_eq, [], ◌∷◌, none, some, min,
  max, pos, all, contains, arith, lookup, string_eq,
}
use tokenity.Errors.{ok}
use tokenity.Ratio.{finite}
use tokenity.Ledger.{
  ResourceLedger, available_memory_bytes, effective_headroom_ratio, usable_memory,
  reserved_memory_bytes, prune_port_quarantine, reserve,
}
use tokenity.Agent.{range}
use tokenity.Agent.Ports.{
  reserved_ports, is_free, allocate_instance_port, all_free, allocate_collective_port,
  allocate_ports, instance_ports,
}
use tokenity.Agent.Ports.Search.{IsFirst, allocated-IsFirst}
use tokenity.Agent.Ports.Reserve.{allocated-reserve}

abbrev taken : ResourceLedger
taken = record {
  total_memory_bytes = 1000;
  minimum_headroom_ratio = finite (pos 250000);
  port_reuse_delay = 5;
  reservations = ("i-1", 100) ∷ [];
  ports = (8080, "i-1") ∷ [];
  quarantined_ports = (9000, 7) ∷ [];
}

-- What another program has bound.
abbrev probe : ℕ → Bool
probe port = not (port == 8081)

allocated : allocate_ports probe 8080 9000 2 taken ≡ some (8082, 9001)
unfolding allocate_ports reserved_ports range
allocated = refl

allocated-IsFirst_example :
    IsFirst
      (is_free probe taken)
      8080
      (min 65536 (8080 + 256))
      (allocate_instance_port probe 8080 taken)
    × IsFirst
        (all_free probe taken [] (max 1 2))
        8080
        (min (65537 - max 1 2) (8080 + 256))
        (allocate_collective_port probe 8080 2 taken [])
allocated-IsFirst_example = allocated-IsFirst probe 8080 2 taken []

allocated-reserve_example :
    ((reserve "i-2" (pos 100) (instance_ports (8082, 9001) 2) none none 6 taken).1 ≡ ok tt)
    × (all probe (instance_ports (8082, 9001) 2) ≡ true)
    × (8082 < 65536)
    × (9001 + max 1 2 ≤ 65536)
    × (contains 8082 (range 9001 (max 1 2)) ≡ false)
unfolding lookup available_memory_bytes effective_headroom_ratio usable_memory reserved_memory_bytes
    prune_port_quarantine
allocated-reserve_example =
    allocated-reserve probe 8080 9000 2 taken 8082 9001 allocated "i-2" 100 650 6 none none refl
      refl (ground arith)
