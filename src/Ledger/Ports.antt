-- ===== src/Ledger/Ports.antt =====
-- Ports: no instance is given a port of another one, nor a port that is still in quarantine.
use tokenity.Common.{
  ℕ, ◌≡◌, ◌≢◌, Bool, true, if◌then◌else◌, ◌==◌, keep, List, [], ◌∷◌, Option, some, String, Dict,
  lookup, insert, lookup-insert, ℤ, arith, contains, any, nat_eq, string_eq, eq_iff, nat_beq_iff,
  inl, inr, Bool-cases,
}
use tokenity.Errors.{ok}
use tokenity.Ratio.{Ratio}
use tokenity.Ledger.{
  ResourceLedger, admit, reserve, prune_port_quarantine, port_conflict, quarantine,
}

any-contains :
    (f : ℕ → Bool) (p : ℕ) (ps : List ℕ) → contains p ps ≡ true → f p ≡ true → any f ps ≡ true
any-contains f p [] h k = cc
any-contains f p (q ∷ ps) h k = ground (arith, any-contains f p ps, nat_beq_iff q p)

pub conflict_refused :
    (id : String) (memory : ℤ) (ports : List ℕ) (system : Option ℤ) (value : Option Ratio) (now : ℕ)
    (l : ResourceLedger) (p : ℕ)
    → contains p ports ≡ true
    → port_conflict id (prune_port_quarantine now l) p ≡ true
    → (reserve id memory ports system value now l).1 ≢ ok tt
unfolding reserve admit
conflict_refused id memory ports system value now l p asked clash =
    ground (arith, any-contains (port_conflict id (prune_port_quarantine now l)) p ports)

-- A port of one instance is never granted to another.
pub port_owner_kept :
    (id owner : String) (memory : ℤ) (ports : List ℕ) (system : Option ℤ) (value : Option Ratio)
    (now : ℕ) (l : ResourceLedger) (p : ℕ)
    → lookup p l.ports ≡ some owner
    → owner ≢ id
    → contains p ports ≡ true
    → (reserve id memory ports system value now l).1 ≢ ok tt
port_owner_kept id owner memory ports system value now l p owned other asked =
    conflict_refused id memory ports system value now l p asked
      (unfold port_conflict prune_port_quarantine in ground (arith, eq_iff owner id))

pub lookup-keep :
    (f : ℕ × ℕ → Bool) (p v : ℕ) (d : Dict ℕ ℕ)
    → lookup p d ≡ some v
    → f (p, v) ≡ true
    → lookup p (keep f d) ≡ some v
unfolding lookup
lookup-keep f p v [] h k = cc
lookup-keep f p v ((q, w) ∷ d) h k = ground (arith, lookup-keep f p v d, nat_beq_iff q p)

quarantine_later :
    (id : String) (until p : ℕ) (d : Dict ℕ String) (q : Dict ℕ ℕ)
    → lookup p q ≡ some until
    → lookup p (quarantine id until d q) ≡ some until
unfolding quarantine
quarantine_later id until p [] q h = h
quarantine_later id until p ((r, owner) ∷ d) q h =
    quarantine_later id until p d (if owner == id then insert r until q else q)
      (ground (arith, lookup-insert r p until q))

pub lookup-quarantine :
    (id : String) (until p : ℕ) (d : Dict ℕ String) (q : Dict ℕ ℕ)
    → lookup p d ≡ some id
    → lookup p (quarantine id until d q) ≡ some until
unfolding quarantine lookup
lookup-quarantine id until p [] q h = cc
lookup-quarantine id until p ((r, owner) ∷ d) q h = elim (Bool-cases (r == p)) [
  | inl e ↦
      quarantine_later id until p d (if owner == id then insert r until q else q)
        (ground (arith, lookup-insert r p until q, eq_iff owner id))
  | inr e ↦
      lookup-quarantine id until p d (if owner == id then insert r until q else q) (ground arith)
]
