-- ===== src/Ledger/Reserve.antt =====
-- What a successful reservation writes, and that a refused one writes nothing.
use tokenity.Common.{
  ℕ, ◌+◌, ◌≤◌, ◌≡◌, refl, if◌then◌else◌, ◌==◌, List, [], ◌∷◌, Option, some, or_default, String,
  Dict, lookup, insert, lookup-insert, ℤ, pos, arith, contains, nat_eq, string_eq, nat_beq_iff,
}
use tokenity.Errors.{Error, ok, err}
use tokenity.Ratio.{Ratio}
use tokenity.Ledger.{ResourceLedger, available_memory_bytes, admit, reserve, assign_ports}

-- Assigning gives each of the ports to the instance, and leaves every other port as it was.
lookup-assign_ports :
    (id : String) (ps : List ℕ) (p : ℕ) (d : Dict ℕ String)
    → lookup p (assign_ports id ps d) ≡ (if contains p ps then some id else lookup p d)
unfolding assign_ports
lookup-assign_ports id [] p d = refl
lookup-assign_ports id (q ∷ ps) p d =
    ground
      (arith, lookup-assign_ports id ps p (insert q id d), lookup-insert q p id d, nat_beq_iff q p)

-- A reservation that is granted sets the amount of its instance and of no other, gives it the
-- ports that it asked for and no other port, and takes no more than what was available.
pub reserve-ok :
    (id : String) (n : ℕ) (ports : List ℕ) (system : Option ℤ) (value : Option Ratio) (now : ℕ)
    (l : ResourceLedger)
    → (reserve id (pos n) ports system value now l).1 ≡ ok tt
    → ((other : String)
        → lookup other (reserve id (pos n) ports system value now l).0.reservations
          ≡ (if id == other then some n else lookup other l.reservations))
      × ((p : ℕ)
          → lookup p (reserve id (pos n) ports system value now l).0.ports
            ≡ (if contains p ports then some id else lookup p l.ports))
      × ((available : ℕ)
          → available_memory_bytes system value l ≡ ok available
          → n ≤ or_default (lookup id l.reservations) 0 + available)
unfolding reserve admit
reserve-ok id n ports system value now l h = (
  λ other. ground (arith, lookup-insert id other n l.reservations),
  λ p. ground (arith, lookup-assign_ports id ports p l.ports),
  λ available e. ground arith,
)

-- A reservation that is refused changes neither the amounts nor the ports.
pub reserve-err :
    (id : String) (memory : ℤ) (ports : List ℕ) (system : Option ℤ) (value : Option Ratio) (now : ℕ)
    (l : ResourceLedger) (e : Error)
    → (reserve id memory ports system value now l).1 ≡ err e
    → ((reserve id memory ports system value now l).0.reservations ≡ l.reservations)
      × ((reserve id memory ports system value now l).0.ports ≡ l.ports)
unfolding reserve
reserve-err id memory ports system value now l e h = ground arith
