-- ===== src/Agent/Ports/Search.antt =====
-- What the two searches for ports of tokenity/node_agent/agent.py find.
use tokenity.Common.{
  ℕ, zero, suc, ◌+◌, ◌-◌, ◌≤◌, ◌<◌, ◌≡◌, Bool, true, false, List, Option, none, some, min, max,
  arith, Bool-cases, inl, inr, ◌⊎◌, subst,
}
use tokenity.Ledger.{ResourceLedger}
use tokenity.Agent.{range}
use tokenity.Agent.Ports.{
  first_such, is_free, allocate_instance_port, all_free, allocate_collective_port,
}

-- The first of some numbers in a row that passes a test, or that none of them does.
unfoldable pub IsFirst : (ℕ → Bool) → ℕ → ℕ → Option ℕ → Type 0
IsFirst test start stop (some p) =
    (start ≤ p) × (p < stop) × (test p ≡ true) × ((q : ℕ) → start ≤ q → q < p → test q ≡ false)
IsFirst test start stop none = (q : ℕ) → start ≤ q → q < stop → test q ≡ false

below :
    (test : ℕ → Bool) (start q : ℕ)
    → test start ≡ false
    → start ≤ q
    → (start + 1 ≤ q → test q ≡ false)
    → test q ≡ false
below test start q n l h = elim (equal_or_above start q l) [
  | inl e ↦ subst (λ x. test x ≡ false) e n
  | inr g ↦ h g
]
  where
    equal_or_above : (a b : ℕ) → a ≤ b → (a ≡ b) ⊎ (a + 1 ≤ b)
    equal_or_above a b l = ground (arith, l)

step_back :
    (test : ℕ → Bool) (start stop : ℕ) (r : Option ℕ)
    → test start ≡ false
    → IsFirst test (start + 1) stop r
    → IsFirst test start stop r
unfolding IsFirst
step_back test start stop (some p) n h =
    (omega (arith, h.0), h.1, h.2, λ q l m. below test start q n l (λ k. h.3 q k m))
step_back test start stop none n h = λ q l m. below test start q n l (λ k. h q k m)

first_such-IsFirst :
    (test : ℕ → Bool) (start count : ℕ)
    → IsFirst test start (start + count) (first_such test (range start count))
unfolding first_such range IsFirst
first_such-IsFirst test start zero = λ q l m. absurd (omega arith)
first_such-IsFirst test start (suc count) = elim (Bool-cases (test start)) [
  | inl y ↦ rw y (omega arith, omega arith, y, λ q l m. absurd (omega arith))
  | inr n ↦ rw n (
      step_back test start (start + suc count) (first_such test (range (start + 1) count)) n (
        subst (λ stop. IsFirst test (start + 1) stop (first_such test (range (start + 1) count)))
          (omega arith) (first_such-IsFirst test (start + 1) count)))
]

up_to :
    (test : ℕ → Bool) (start stop : ℕ) (r : Option ℕ)
    → IsFirst test start (start + (stop - start)) r
    → IsFirst test start stop r
unfolding IsFirst
up_to test start stop (some p) h = (h.0, omega (arith, h.0, h.1), h.2, h.3)
up_to test start stop none h = λ q l m. h q l (omega arith)

-- The port of an instance is the first number, from the preferred one on, below that plus 256 and
-- below 65536, that the ledger neither has given nor keeps in quarantine and that can be bound, and
-- the error says that there is no such number; and the starting port of a collective is the first
-- number, from the preferred one on, within the same 256 and such that the whole range of one port for
-- each rank lies below 65536, of which this holds for each port of the range and none of them is
-- excluded.
pub allocated-IsFirst :
    (tcp_port_available : ℕ → Bool) (preferred world_size : ℕ) (l : ResourceLedger)
    (excluded : List ℕ)
    → IsFirst
        (is_free tcp_port_available l)
        preferred
        (min 65536 (preferred + 256))
        (allocate_instance_port tcp_port_available preferred l)
      × IsFirst
          (all_free tcp_port_available l excluded (max 1 world_size))
          preferred
          (min (65537 - max 1 world_size) (preferred + 256))
          (allocate_collective_port tcp_port_available preferred world_size l excluded)
unfolding allocate_instance_port allocate_collective_port
allocated-IsFirst available preferred world_size l excluded = (
  up_to (is_free available l) preferred (min 65536 (preferred + 256))
      (first_such (is_free available l) (range preferred (min 65536 (preferred + 256) - preferred)))
      (first_such-IsFirst (is_free available l) preferred
        (min 65536 (preferred + 256) - preferred)),
  let width = max 1 world_size in
      let stop = min (65537 - width) (preferred + 256) in
      up_to (all_free available l excluded width) preferred stop
        (first_such (all_free available l excluded width) (range preferred (stop - preferred)))
        (first_such-IsFirst (all_free available l excluded width) preferred (stop - preferred)),
)
