-- ===== src/Ledger/Quarantine.antt =====
-- The quarantine of a port of tokenity/control/instances.py lasts through the calls in between.
use tokenity.Common.{
  ℕ, ◌+◌, ◌≤◌, ◌<◌, ◌≡◌, ◌≢◌, refl, subst, sym, true, not, ltb, if◌then◌else◌, ◌==◌, leb, All, List,
  [], ◌∷◌, Option, some, String, Dict, lookup, insert, lookup-insert, ℤ, arith, max, pos, pos_part,
  ◌&&◌, contains, nat_eq, string_eq, inl, inr, Bool-cases,
}
use tokenity.Errors.{ok, Result-cases}
use tokenity.Ratio.{Ratio}
use tokenity.Memory.{MemoryReservationBreakdown}
use tokenity.Ledger.{
  ResourceLedger, check_amounts, observation, admit, reserve, resize, reconcile, reconcile_target,
  release, prune_port_quarantine, port_conflict, quarantine,
}
use tokenity.Ledger.Calls.{
  Call, reserves, resizes, reconciles, releases, snapshots, step, run, after,
}
use tokenity.Ledger.Ports.{lookup-keep, lookup-quarantine, conflict_refused}

-- The clock that the call reads lies in a stretch of time.
abbrev pub ReadsWithin : ℕ → ℕ → Call → Type 0
ReadsWithin from to (reserves _ _ _ _ _ now) = (from ≤ now) × (now < to)
ReadsWithin from to (releases _ now) = (from ≤ now) × (now < to)
ReadsWithin from to (snapshots now) = (from ≤ now) × (now < to)
ReadsWithin from to _ = Unit

module _ (delay limit p : ℕ) where
  -- The port is in quarantine up to the limit at least.
  record IsHeld (l : ResourceLedger) : Type 0 where
    same : l.port_reuse_delay ≡ delay
    until : ℕ
    found : lookup p l.quarantined_ports ≡ some until
    late : limit ≤ until

  kept :
      (l m : ResourceLedger)
      → m.port_reuse_delay ≡ l.port_reuse_delay
      → m.quarantined_ports ≡ l.quarantined_ports
      → IsHeld l
      → IsHeld m
  kept l m e q h = record {
    same = ground (arith, e, h.same);
    until = h.until;
    found = subst (λ d. lookup p d ≡ some h.until) (sym q) h.found;
    late = h.late;
  }

  prune-IsHeld :
      (now : ℕ) (l : ResourceLedger) → now < limit → IsHeld l → IsHeld (prune_port_quarantine now l)
  unfolding prune_port_quarantine
  prune-IsHeld now l e h = record {
    same = h.same;
    until = h.until;
    found =
        lookup-keep (λ (x : ℕ × ℕ). not (leb x.1 now)) p h.until l.quarantined_ports h.found
          (ground (arith, h.late));
    late = h.late;
  }

  admit-fields :
      (id : String) (memory : ℕ) (ports : List ℕ) (system : Option ℤ) (value : Option Ratio)
      (l x : ResourceLedger)
      → admit id memory ports system value l ≡ ok x
      → (x.port_reuse_delay ≡ l.port_reuse_delay) × (x.quarantined_ports ≡ l.quarantined_ports)
  unfolding admit
  admit-fields id memory ports system value l x e = (ground (arith, e), ground (arith, e))

  resize-fields :
      (id : String) (memory : ℤ) (system : Option ℤ) (value : Option Ratio) (l : ResourceLedger)
      → ((after l (resize id memory system value l)).port_reuse_delay ≡ l.port_reuse_delay)
        × ((after l (resize id memory system value l)).quarantined_ports ≡ l.quarantined_ports)
  unfolding resize
  resize-fields id memory system value l = (ground arith, ground arith)

  reserve-IsHeld :
      (id : String) (memory : ℤ) (ports : List ℕ) (system : Option ℤ) (value : Option Ratio)
      (now : ℕ) (l : ResourceLedger)
      → now < limit
      → IsHeld l
      → IsHeld (reserve id memory ports system value now l).0
  unfolding reserve
  reserve-IsHeld id memory ports system value now l e h =
      let pruned = prune_port_quarantine now l in
      let after_call = (reserve id memory ports system value now l).0 in
      elim (Result-cases (check_amounts memory system)) [
        | inl (x, n) ↦ kept l after_call (ground (arith, n)) (ground (arith, n)) h
        | inr (u, n) ↦ elim (Result-cases (admit id (pos_part memory) ports system value pruned)) [
          | inl (x, m) ↦
              kept pruned after_call (ground (arith, n, m)) (ground (arith, n, m))
                (prune-IsHeld now l e h)
          | inr (x, m) ↦
              let (a, b) = admit-fields id (pos_part memory) ports system value pruned x m in
              kept pruned after_call (ground (arith, n, m, a)) (ground (arith, n, m, b))
                (prune-IsHeld now l e h)
        ]
      ]

  reconcile-fields :
      (id : String) (peak footprint : Option ℤ) (margin : Ratio) (minimum : ℤ)
      (breakdown : Option MemoryReservationBreakdown) (system : Option ℤ) (value : Option Ratio)
      (l : ResourceLedger)
      → ((after l
            (reconcile id peak footprint margin minimum breakdown system value l)).port_reuse_delay
          ≡ l.port_reuse_delay)
        × ((after l (
              reconcile id peak footprint margin minimum breakdown system value
                l)).quarantined_ports
            ≡ l.quarantined_ports)
  unfolding reconcile
  reconcile-fields id peak footprint margin minimum breakdown system value l =
      elim (Result-cases
        (reconcile_target (observation peak) (observation footprint) margin breakdown)) [
          | inl (x, n) ↦ (ground (arith, n), ground (arith, n))
          | inr (t, n) ↦
              let (a, b) = resize-fields id (pos (max (pos_part minimum) t)) system value l in
              (ground (arith, n, a), ground (arith, n, b))
        ]

  quarantine-Late :
      (id : String) (until : ℕ) (d : Dict ℕ String) (q : Dict ℕ ℕ) (u : ℕ)
      → limit ≤ until
      → lookup p q ≡ some u
      → limit ≤ u
      → (v : ℕ) × (lookup p (quarantine id until d q) ≡ some v) × (limit ≤ v)
  unfolding quarantine
  quarantine-Late id until [] q u l f m = (u, f, m)
  quarantine-Late id until ((r, owner) ∷ d) q u l f m = elim (Bool-cases (owner == id && r == p)) [
    | inl y ↦
        quarantine-Late id until d (if owner == id then insert r until q else q) until l
          (ground (arith, y, lookup-insert r p until q)) l
    | inr n ↦
        quarantine-Late id until d (if owner == id then insert r until q else q) u l
          (ground (arith, n, f, lookup-insert r p until q)) m
  ]

  release-IsHeld :
      (id : String) (now : ℕ) (l : ResourceLedger)
      → limit ≤ now + delay
      → IsHeld l
      → IsHeld (release id now l)
  unfolding release
  release-IsHeld id now l e h = elim (Bool-cases (ltb 0 l.port_reuse_delay)) [
    | inl y ↦
        let (v, f, m) =
          quarantine-Late id (now + l.port_reuse_delay) l.ports l.quarantined_ports h.until
            (rw h.same e) h.found h.late in
        record { same = h.same; until = v; found = rw y f; late = m }
    | inr n ↦ record { same = h.same; until = h.until; found = rw n h.found; late = h.late }
  ]

  step-IsHeld :
      (from : ℕ) (l : ResourceLedger) (c : Call)
      → limit ≤ from + delay
      → ReadsWithin from limit c
      → IsHeld l
      → IsHeld (step l c)
  unfolding step
  step-IsHeld from l (reserves id memory ports system value now) e t h =
      reserve-IsHeld id memory ports system value now l t.1 h
  step-IsHeld from l (resizes id memory system value) e t h =
      let (a, b) = resize-fields id memory system value l in
      kept l (after l (resize id memory system value l)) a b h
  step-IsHeld from l (reconciles id peak footprint margin minimum breakdown system value) e t h =
      let (a, b) = reconcile-fields id peak footprint margin minimum breakdown system value l in
      kept l (after l (reconcile id peak footprint margin minimum breakdown system value l)) a b h
  step-IsHeld from l (releases id now) e t h = release-IsHeld id now l (omega (arith, e, t.0)) h
  step-IsHeld from l (snapshots now) e t h = prune-IsHeld now l t.1 h

  run-IsHeld :
      (from : ℕ) (l : ResourceLedger) (cs : List Call)
      → limit ≤ from + delay
      → All (ReadsWithin from limit) cs
      → IsHeld l
      → IsHeld (run l cs)
  unfolding run
  run-IsHeld from l [] e t h = h
  run-IsHeld from l (c ∷ cs) e t h =
      run-IsHeld from (step l c) cs e t.1 (step-IsHeld from l c e t.0 h)

  held_refused :
      (other : String) (memory : ℤ) (ports : List ℕ) (system : Option ℤ) (value : Option Ratio)
      (later : ℕ) (l : ResourceLedger)
      → later < limit
      → contains p ports ≡ true
      → IsHeld l
      → (reserve other memory ports system value later l).1 ≢ ok tt
  held_refused other memory ports system value later l early asked h =
      let still = prune-IsHeld later l early h in
      conflict_refused other memory ports system value later l p asked
        (clash (prune_port_quarantine later l) still)
    where
      clash : (m : ResourceLedger) → IsHeld m → port_conflict other m p ≡ true
      clash m h = unfold port_conflict in ground (arith, h.found)

-- Where the clock of every call in between reads a time from the release on and before the reuse delay
-- has passed: a port that an instance gives back at `now` is refused to everyone, that instance
-- included, after any calls of the ledger and until the delay has passed.
pub quarantine_holds :
    (id other : String) (memory : ℤ) (ports : List ℕ) (system : Option ℤ) (value : Option Ratio)
    (now later : ℕ) (l : ResourceLedger) (cs : List Call) (p : ℕ)
    → lookup p l.ports ≡ some id
    → All (ReadsWithin now (now + l.port_reuse_delay)) cs
    → now ≤ later
    → later < now + l.port_reuse_delay
    → contains p ports ≡ true
    → (reserve other memory ports system value later (run (release id now l) cs)).1 ≢ ok tt
quarantine_holds id other memory ports system value now later l cs p owned within order early
      asked =
    let delay = l.port_reuse_delay in
    let limit = now + delay in
    held_refused delay limit p other memory ports system value later (run (release id now l) cs)
      early asked
      (run-IsHeld delay limit p now (release id now l) cs (omega arith) within (record {
        same = unfold release in refl;
        until = limit;
        found =
            unfold release in
            ground (arith, lookup-quarantine id limit p l.ports l.quarantined_ports owned);
        late = omega arith;
      }))
