-- ===== src/Agent/Ports/Reserve.antt =====
-- The ports that tokenity/node_agent/agent.py allocates for a new instance, and their reservation by
-- `ResourceLedger.reserve` of tokenity/control/instances.py.
use tokenity.Common.{
  ℕ, ◌+◌, ◌-◌, ◌≤◌, ◌<◌, ◌≡◌, refl, ap, Bool, true, false, ◌||◌, not, leb, ltb, List, [], ◌∷◌, ◌++◌,
  Option, none, some, or_default, min, max, arith, contains, any, all, map, keep, String, Dict,
  lookup, insert, subst, ℤ, pos, nat_eq, string_eq, nat_beq_iff,
}
use tokenity.Errors.{ok}
use tokenity.Ratio.{Ratio}
use tokenity.Ledger.{
  ResourceLedger, prune_port_quarantine, available_memory_bytes, port_conflict, admit, assign_ports,
  reserve, is_negative_option,
}
use tokenity.Agent.{range}
use tokenity.Agent.Ports.{
  reserved_ports, is_free, all_free, allocate_instance_port, allocate_collective_port,
  allocate_ports, with_port, and_start, instance_ports,
}
use tokenity.Agent.Ports.Search.{IsFirst, allocated-IsFirst}

contains-append :
    (q : ℕ) (xs ys : List ℕ) → contains q (xs ++ ys) ≡ (contains q xs || contains q ys)
contains-append q [] ys = refl
contains-append q (x ∷ xs) ys = ground (arith, contains-append q xs ys)

-- A number that is no key is found nowhere, also where entries are dropped.
module _ {V : Type 0} where
  lookup_dropped :
      (f : ℕ × V → Bool) (q : ℕ) (d : Dict ℕ V)
      → contains q (map (λ e. e.0) d) ≡ false
      → lookup q (keep f d) ≡ none
  unfolding lookup
  lookup_dropped f q [] h = refl
  lookup_dropped f q ((k, v) ∷ d) h = ground (arith, lookup_dropped f q d (ground (arith, h)))

  lookup_absent : (q : ℕ) (d : Dict ℕ V) → contains q (map (λ e. e.0) d) ≡ false → lookup q d ≡ none
  unfolding lookup
  lookup_absent q [] h = refl
  lookup_absent q ((k, v) ∷ d) h = ground (arith, lookup_absent q d (ground (arith, h)))

no_conflict :
    (id : String) (now : ℕ) (l : ResourceLedger) (q : ℕ)
    → contains q (reserved_ports l) ≡ false
    → port_conflict id (prune_port_quarantine now l) q ≡ false
unfolding port_conflict prune_port_quarantine reserved_ports
no_conflict id now l q h =
    let split = contains-append q (map (λ e. e.0) l.ports) (map (λ e. e.0) l.quarantined_ports) in
    rw
      (
        lookup_dropped (λ e. not (leb e.1 now)) q l.quarantined_ports (ground (arith, h, split)),
        lookup_absent q l.ports (ground (arith, h, split)),
      )
      refl

no_conflicts :
    (id : String) (now : ℕ) (l : ResourceLedger) (excluded qs : List ℕ)
    → any (λ q. contains q (reserved_ports l ++ excluded)) qs ≡ false
    → (any (port_conflict id (prune_port_quarantine now l)) qs ≡ false)
      × (any (λ q. contains q excluded) qs ≡ false)
no_conflicts id now l excluded [] h = (refl, refl)
no_conflicts id now l excluded (q ∷ qs) h =
    let split = contains-append q (reserved_ports l) excluded in
    let (rest, fresh) = no_conflicts id now l excluded qs (ground (arith, h)) in
    (
      ground (arith, h, rest, no_conflict id now l q (ground (arith, h, split))),
      ground (arith, h, split, fresh),
    )

not_among :
    (p : ℕ) (qs : List ℕ) → any (λ q. contains q (p ∷ [])) qs ≡ false → contains p qs ≡ false
not_among p [] h = refl
not_among p (q ∷ qs) h =
    ground (arith, h, not_among p qs (ground (arith, h)), nat_beq_iff p q, nat_beq_iff q p)

and_start-some : (q p s : ℕ) (o : Option ℕ) → and_start q o ≡ some (p, s) → (q ≡ p) × (o ≡ some s)
and_start-some q p s none h = cc
and_start-some q p s (some t) h = (ground (arith, h), ground (arith, h))

abbrev admitted : String → ℕ → List ℕ → ResourceLedger → ResourceLedger
admitted id n ports l = record l {
  reservations = insert id n l.reservations;
  ports = assign_ports id ports l.ports;
}

-- A reservation whose memory is there and whose ports are free is granted.
admit-granted :
    (id : String) (n available : ℕ) (ports : List ℕ) (system : Option ℤ) (value : Option Ratio)
    (l : ResourceLedger)
    → available_memory_bytes system value l ≡ ok available
    → ltb available (n - or_default (lookup id l.reservations) 0) ≡ false
    → any (port_conflict id l) ports ≡ false
    → admit id n ports system value l ≡ ok (admitted id n ports l)
unfolding admit
admit-granted id n available ports system value l a b c = rw (a, b, c) refl

reserve-granted :
    (id : String) (n now : ℕ) (ports : List ℕ) (system : Option ℤ) (value : Option Ratio)
    (l m : ResourceLedger)
    → is_negative_option system ≡ false
    → admit id n ports system value (prune_port_quarantine now l) ≡ ok m
    → (reserve id (pos n) ports system value now l).1 ≡ ok tt
unfolding reserve
reserve-granted id n now ports system value l m z a = ground (arith, z, a)

module _ (tcp_port_available : ℕ → Bool) (port starting_port nodes : ℕ) (l : ResourceLedger) where
  with_port-some :
      (p s : ℕ) (o : Option ℕ)
      → with_port tcp_port_available starting_port nodes l o ≡ some (p, s)
      → (o ≡ some p)
        × (allocate_collective_port tcp_port_available starting_port nodes l (p ∷ []) ≡ some s)
  with_port-some p s none h = cc
  with_port-some p s (some q) h =
      let (same, start) =
        and_start-some q p s
          (allocate_collective_port tcp_port_available starting_port nodes l (q ∷ [])) h in
      (
        ap some same,
        subst
            (λ x.
              allocate_collective_port tcp_port_available starting_port nodes l (x ∷ []) ≡ some s)
            same start,
      )

  -- Both searches have found what the pair says.
  found :
      (p s : ℕ)
      → allocate_ports tcp_port_available port starting_port nodes l ≡ some (p, s)
      → (is_free tcp_port_available l p ≡ true)
        × (p < 65536)
        × (all_free tcp_port_available l (p ∷ []) (max 1 nodes) s ≡ true)
        × (s < 65537 - max 1 nodes)
  unfolding allocate_ports IsFirst
  found p s e =
      let (one, all) = with_port-some p s (allocate_instance_port tcp_port_available port l) e in
      let first =
        subst (IsFirst (is_free tcp_port_available l) port (min 65536 (port + 256))) one
          (allocated-IsFirst tcp_port_available port nodes l []).0 in
      let first_of_all =
        subst
          (IsFirst (all_free tcp_port_available l (p ∷ []) (max 1 nodes)) starting_port
            (min (65537 - max 1 nodes) (starting_port + 256)))
          all (allocated-IsFirst tcp_port_available starting_port nodes l (p ∷ [])).1 in
      (first.2, omega (arith, first.1), first_of_all.2, omega (arith, first_of_all.1))

  -- Where no one has changed the ledger in between: for the ports that were allocated for an
  -- instance, `reserve` is granted at any later time at which the memory is within what is available;
  -- and these ports can be bound, are below 65536, and the port of the instance is none of those of
  -- the collective.
  pub allocated-reserve :
      (p s : ℕ)
      → allocate_ports tcp_port_available port starting_port nodes l ≡ some (p, s)
      → (id : String) (n available now : ℕ) (system : Option ℤ) (value : Option Ratio)
      → is_negative_option system ≡ false
      → available_memory_bytes system value (prune_port_quarantine now l) ≡ ok available
      → n ≤ or_default (lookup id l.reservations) 0 + available
      → ((reserve id (pos n) (instance_ports (p, s) nodes) system value now l).1 ≡ ok tt)
        × (all tcp_port_available (instance_ports (p, s) nodes) ≡ true)
        × (p < 65536)
        × (s + max 1 nodes ≤ 65536)
        × (contains p (range s (max 1 nodes)) ≡ false)
  unfolding prune_port_quarantine instance_ports
  allocated-reserve p s e id n available now system value z a m =
      let (free, low, free_all, low_all) = found p s e in
      let (apart, distinct) =
        no_conflicts id now l (p ∷ []) (range s (max 1 nodes)) (ground (arith, free_all)) in
      let here = no_conflict id now l p (ground (arith, free)) in
      let pruned = prune_port_quarantine now l in
      let granted =
        admit-granted id n available (instance_ports (p, s) nodes) system value pruned a
          (ground (arith, m)) (ground (arith, here, apart)) in
      (
        reserve-granted id n now (instance_ports (p, s) nodes) system value l
            (admitted id n (instance_ports (p, s) nodes) pruned) z granted,
        ground (arith, free, free_all),
        low,
        omega (arith, low_all),
        not_among p (range s (max 1 nodes)) distinct,
      )
