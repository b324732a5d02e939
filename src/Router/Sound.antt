-- ===== src/Router/Sound.antt =====
-- The router returns an instance that may serve the request, and misses none.
use tokenity.Common.{
  ◌≡◌, ◌≢◌, ◌⊎◌, subst, sym, All-append_back, inl, inr, refl, true, All, All-append, All-get_or,
  All-keep, All-sort, List, [], ◌∷◌, ◌++◌, Option, some, String, lookup, strip, arith, string_eq,
  eq_iff, length, get_or,
}
use tokenity.Errors.{ok}
use tokenity.Instance.{ModelInstance}
use tokenity.Registry.{Registry, get, snapshots}
use tokenity.Router.{
  eligible, Verdict, skip, exact, alias, judge, Scan, found, candidates, scan, choose, conclude,
  Cursor, resolve, least_loaded, load_of, load_beq, cursor_index, minimum_load,
}

-- The instance is registered, passes the tests, and is what the key names.
pub record Fits (key : String) (revision : Option String) (excluded : List String) (r : Registry)
    (i : ModelInstance) : Type 0 where
  pub registered : (k : String) × (lookup k r ≡ some i)
  pub passes : eligible revision excluded i ≡ true
  pub named : (i.instance_id ≡ key) ⊎ (i.requested_model_id ≡ key)

module _ (key : String) (revision : Option String) (excluded : List String) (r : Registry) where
  judge-Fits :
      (k : String) (i : ModelInstance)
      → (judge key revision excluded (get k r) ≡ exact i)
        ⊎ (judge key revision excluded (get k r) ≡ alias i)
      → Fits key revision excluded r i
  unfolding judge get
  judge-Fits k i h = record {
    registered = (k, ground arith);
    passes = ground arith;
    named = ground (arith, eq_iff i.instance_id key, eq_iff i.requested_model_id key);
  }

  judge-exact :
      (o : Option ModelInstance) (i : ModelInstance)
      → judge key revision excluded o ≡ exact i
      → i.instance_id ≡ key
  unfolding judge
  judge-exact o i h = ground (arith, eq_iff i.instance_id key)

  abbrev pub ScanFits : Scan → Type 0
  ScanFits (found i) = Fits key revision excluded r i × (i.instance_id ≡ key)
  ScanFits (candidates cs) = All (Fits key revision excluded r) cs

  abbrev pub round : List ModelInstance → List ModelInstance → Verdict → Scan
  round acc rest skip = scan key revision excluded r acc rest
  round acc rest (exact i) = found i
  round acc rest (alias i) = scan key revision excluded r (acc ++ i ∷ []) rest

  -- One round of the loop, by what it judged.
  scan-cons :
      (acc : List ModelInstance) (s : ModelInstance) (rest : List ModelInstance)
      → scan key revision excluded r acc (s ∷ rest)
        ≡ round acc rest (judge key revision excluded (get s.instance_id r))
  unfolding scan
  scan-cons acc s rest = ground arith

  round-ScanFits :
      (acc rest : List ModelInstance) (v : Verdict)
      → ((i : ModelInstance) → (v ≡ exact i) ⊎ (v ≡ alias i) → Fits key revision excluded r i)
      → ((i : ModelInstance) → v ≡ exact i → i.instance_id ≡ key)
      → ((more : List ModelInstance)
          → All (Fits key revision excluded r) more
          → ScanFits (scan key revision excluded r more rest))
      → All (Fits key revision excluded r) acc
      → ScanFits (round acc rest v)
  round-ScanFits acc rest skip fits exactly later h = later acc h
  round-ScanFits acc rest (exact i) fits exactly later h = (fits i (inl refl), exactly i refl)
  round-ScanFits acc rest (alias i) fits exactly later h =
      later (acc ++ i ∷ [])
        (All-append (Fits key revision excluded r) acc (i ∷ []) h (fits i (inr refl), tt))

  pub scan-ScanFits :
      (acc ss : List ModelInstance)
      → All (Fits key revision excluded r) acc
      → ScanFits (scan key revision excluded r acc ss)
  unfolding scan
  scan-ScanFits acc [] h = h
  scan-ScanFits acc (s ∷ rest) h = subst ScanFits (sym (scan-cons acc s rest)) (
      round-ScanFits acc rest (judge key revision excluded (get s.instance_id r))
        (judge-Fits s.instance_id) (judge-exact (get s.instance_id r))
        (λ more g. scan-ScanFits more rest g) h)

  -- The instances that the loop must not miss.
  abbrev pub Unnamed : Option ModelInstance → Type 0
  Unnamed o = (j : ModelInstance) → judge key revision excluded o ≢ exact j

  abbrev pub Covered : (ModelInstance → Type 0) → ModelInstance → Type 0
  Covered Q s =
      ((j : ModelInstance) → judge key revision excluded (get s.instance_id r) ≡ alias j → Q j)
      × Unnamed (get s.instance_id r)

  abbrev pub Covers :
      (ModelInstance → Type 0) → List ModelInstance → List ModelInstance → Scan → Type 0
  Covers Q acc ss (found i) = Unit {0}
  Covers Q acc ss (candidates cs) = All Q cs → All Q acc × All (Covered Q) ss

  round-Covers :
      (Q : ModelInstance → Type 0) (acc rest : List ModelInstance) (s : ModelInstance) (v : Verdict)
      → judge key revision excluded (get s.instance_id r) ≡ v
      → ((more : List ModelInstance) → Covers Q more rest (scan key revision excluded r more rest))
      → Covers Q acc (s ∷ rest) (round acc rest v)
  round-Covers Q acc rest s skip e later = widen (scan key revision excluded r acc rest) (later acc)
    where
      widen : (c : Scan) → Covers Q acc rest c → Covers Q acc (s ∷ rest) c
      widen (found i) h = tt
      widen (candidates cs) h = λ q. ((h q).0, (((λ j a. cc), (λ j a. cc)), (h q).1))
  round-Covers Q acc rest s (exact i) e later = tt
  round-Covers Q acc rest s (alias i) e later =
      widen (scan key revision excluded r (acc ++ i ∷ []) rest) (later (acc ++ i ∷ []))
    where
      widen : (c : Scan) → Covers Q (acc ++ i ∷ []) rest c → Covers Q acc (s ∷ rest) c
      widen (found _) h = tt
      widen (candidates cs) h = λ q.
          let (before, last) = All-append_back Q acc (i ∷ []) (h q).0 in
          (before, (((λ j a. subst Q (cc) last.0), (λ j a. cc)), (h q).1))

  pub scan-Covers :
      (Q : ModelInstance → Type 0) (acc ss : List ModelInstance)
      → Covers Q acc ss (scan key revision excluded r acc ss)
  unfolding scan
  scan-Covers Q acc [] = λ q. (q, tt)
  scan-Covers Q acc (s ∷ rest) = subst (Covers Q acc (s ∷ rest)) (sym (scan-cons acc s rest)) (
      round-Covers Q acc rest s (judge key revision excluded (get s.instance_id r)) refl
        (λ more. scan-Covers Q more rest))

All-least_loaded {ℓ} :
    (P : ModelInstance → Type ℓ) (x : ModelInstance) (xs : List ModelInstance)
    → All P (x ∷ xs)
    → All P (least_loaded x xs)
unfolding least_loaded
All-least_loaded P x xs h =
    All-sort _ P _ (All-keep P (λ i. load_beq (load_of i) (minimum_load (load_of x) xs)) (x ∷ xs) h)

choose-All {ℓ} :
    (P : ModelInstance → Type ℓ) (key : String) (revision : Option String) (cursor c : Cursor)
    (cs : List ModelInstance) (i : ModelInstance)
    → All P cs
    → choose key revision cursor cs ≡ ok (c, i)
    → P i
unfolding choose
choose-All P key revision cursor c [] i h e = cc
choose-All P key revision cursor c (x ∷ xs) i h e =
    let best = least_loaded x xs in
    let chosen = get_or best (cursor_index key revision cursor (length best)) x in
    let same : chosen ≡ i = ground arith in
    subst P same (
      All-get_or P best (cursor_index key revision cursor (length best)) x
        (All-least_loaded P x xs h) h.0)

module _ (key : String) (revision : Option String) (excluded : List String) (r : Registry) where
  conclude-Fits :
      (cursor c : Cursor) (s : Scan) (i : ModelInstance)
      → ScanFits key revision excluded r s
      → conclude key revision cursor s ≡ ok (c, i)
      → Fits key revision excluded r i
  conclude-Fits cursor c (found j) i h e = subst (Fits key revision excluded r) (cc) h.0
  conclude-Fits cursor c (candidates cs) i h e =
      choose-All (Fits key revision excluded r) key revision cursor c cs i h e

-- The instance that a request is routed to is registered, serves, is not known as unhealthy, is
-- not excluded, has the revision asked for, and has the stripped name as its id or its alias.
pub resolve-Fits :
    (name : String) (revision : Option String) (excluded : List String) (r : Registry)
    (cursor c : Cursor) (i : ModelInstance)
    → resolve name revision excluded r cursor ≡ ok (c, i)
    → Fits (strip name) revision excluded r i
unfolding resolve
resolve-Fits name revision excluded r cursor c i h =
    conclude-Fits (strip name) revision excluded r cursor c
      (scan (strip name) revision excluded r [] (snapshots r)) i
      (scan-ScanFits (strip name) revision excluded r [] (snapshots r) tt) (ground arith)
