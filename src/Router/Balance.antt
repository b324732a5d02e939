-- ===== src/Router/Balance.antt =====
-- Among the candidates the router takes one with the least load, and goes round those.
use tokenity.Common.{
  ◌<◌, ◌≡◌, ◌≢◌, ◌⊎◌, inl, inr, ◌∙◌, subst, ap, true, false, ◌||◌, All, All-sort, All-sort_back,
  All-of_map, All-map, All-lookup, length-sort, any-length-keep, keep-All, All-get_or_lt, List, [],
  ◌∷◌, Option, some, String, lookup, strip, arith, string_eq, option_eq, pair_eq, eq_iff, keep, any,
  sort, get_or, length,
}
use tokenity.Errors.{ok}
use tokenity.Instance.{ModelInstance}
use tokenity.Registry.{Registry, get, snapshots}
use tokenity.Registry.Ownership.{IsKeyed}
use tokenity.Router.{
  eligible, alias, judge, Scan, found, candidates, scan, choose, conclude, Cursor, resolve,
  least_loaded, Load, load_of, load_beq, load_lt, lesser, cursor_index, minimum_load,
}
use tokenity.Router.Sound.{Covered, Covers, scan-Covers, ScanFits, scan-ScanFits}

-- The order of loads, as the proofs use it.
load_lt-antisym : (a b : Load) → load_lt a b ≡ true → load_lt b a ≡ false
load_lt-antisym a b h = ground arith

load_lt_trans : (a b c : Load) → load_lt a b ≡ false → load_lt b c ≡ false → load_lt a c ≡ false
load_lt_trans a b c h k = ground arith

load_lt-beq : (a b c : Load) → load_beq a b ≡ true → load_lt c b ≡ false → load_lt c a ≡ false
load_lt-beq a b c h k = ground arith

load_beq_refl : (a : Load) → load_beq a a ≡ true
load_beq_refl a = ground arith

lesser-le :
    (m : Load) (i : ModelInstance)
    → (load_lt m (lesser m i) ≡ false) × (load_lt (load_of i) (lesser m i) ≡ false)
unfolding lesser
lesser-le m i = ground arith

lesser_cases : (m : Load) (i : ModelInstance) → (lesser m i ≡ m) ⊎ (lesser m i ≡ load_of i)
unfolding lesser
lesser_cases m i = ground arith

-- The minimum is at most the start and each load, and is one of them.
minimum_load-le :
    (m : Load) (is : List ModelInstance)
    → (load_lt m (minimum_load m is) ≡ false)
      × All (λ i. load_lt (load_of i) (minimum_load m is) ≡ false) is
unfolding minimum_load
minimum_load-le m [] = (ground arith, tt)
minimum_load-le m (i ∷ is) =
    let (below, rest) = minimum_load-le (lesser m i) is in
    (
      load_lt_trans m (lesser m i) (minimum_load (lesser m i) is) (lesser-le m i).0 below,
      (
        load_lt_trans (load_of i) (lesser m i) (minimum_load (lesser m i) is) (lesser-le m i).1
            below,
        rest,
      ),
    )

minimum_load-attained :
    (m : Load) (is : List ModelInstance)
    → (load_beq m (minimum_load m is) || any (λ i. load_beq (load_of i) (minimum_load m is)) is)
      ≡ true
unfolding minimum_load
minimum_load-attained m [] = ground arith
minimum_load-attained m (i ∷ is) =
    ground (arith, minimum_load-attained (lesser m i) is, lesser_cases m i)

-- Every one of the least loaded is as light as any candidate, and there is at least one.
least_loaded-le :
    (c j : ModelInstance) (cs : List ModelInstance)
    → load_lt (load_of j) (minimum_load (load_of c) cs) ≡ false
    → All (λ i. load_lt (load_of j) (load_of i) ≡ false) (least_loaded c cs)
unfolding least_loaded
least_loaded-le c j cs h =
    All-sort (λ i. i.instance_id) _ _
      (All-map _ _ (keep (λ i. load_beq (load_of i) (minimum_load (load_of c) cs)) (c ∷ cs))
        (λ i e. load_lt-beq (load_of i) (minimum_load (load_of c) cs) (load_of j) e h)
        (keep-All (λ i. load_beq (load_of i) (minimum_load (load_of c) cs)) (c ∷ cs)))

pub least_loaded-pos :
    (c : ModelInstance) (cs : List ModelInstance) → 0 < length (least_loaded c cs)
unfolding least_loaded
least_loaded-pos c cs =
    let test = λ (i : ModelInstance). load_beq (load_of i) (minimum_load (load_of c) cs) in
    omega (
      arith,
      length-sort (λ (i : ModelInstance). i.instance_id) (keep test (c ∷ cs)),
      any-length-keep test (c ∷ cs) (minimum_load-attained (load_of c) cs),
    )

choose-least :
    (key : String) (revision : Option String) (cursor c : Cursor) (cs : List ModelInstance)
    (i : ModelInstance)
    → choose key revision cursor cs ≡ ok (c, i)
    → All (λ j. load_lt (load_of j) (load_of i) ≡ false) cs
unfolding choose
choose-least key revision cursor c [] i e = tt
choose-least key revision cursor c (x ∷ xs) i e =
    let best = least_loaded x xs in
    let index = cursor_index key revision cursor (length best) in
    let chosen = get_or best index x in
    let same : chosen ≡ i = ground arith in
    let (first, rest) = minimum_load-le (load_of x) xs in
    All-map _ (λ j. load_lt (load_of j) (load_of i) ≡ false) (x ∷ xs)
      (λ j h.
        subst (λ z. load_lt (load_of j) (load_of z) ≡ false) same
          (All-get_or_lt (λ z. load_lt (load_of j) (load_of z) ≡ false) best index x
            (omega (arith, least_loaded-pos x xs)) (least_loaded-le x j xs h)))
      (first, rest)

module _ (key : String) (revision : Option String) (excluded : List String) (r : Registry) where
  -- What covers the snapshots covers the registry.
  pub Covered-lookup :
      (Q : ModelInstance → Type 0) (k : String) (j : ModelInstance)
      → All (Covered key revision excluded r Q) (snapshots r)
      → lookup k r ≡ some j
      → Covered key revision excluded r Q j
  unfolding snapshots
  Covered-lookup Q k j h e =
      All-lookup (λ p. Covered key revision excluded r Q p.1) k j r
        (All-sort_back (λ p. p.0) (λ p. Covered key revision excluded r Q p.1) r
          (All-of_map (Covered key revision excluded r Q) (λ p. p.1) (sort (λ p. p.0) r) h))
        e

  conclude-least :
      (cursor c : Cursor) (s : Scan) (i j : ModelInstance)
      → ScanFits key revision excluded r s
      → Covers key revision excluded r
          (λ z. load_lt (load_of z) (load_of i) ≡ false)
          []
          (snapshots r)
          s
      → conclude key revision cursor s ≡ ok (c, i)
      → lookup j.instance_id r ≡ some j
      → judge key revision excluded (some j) ≡ alias j
      → (i.instance_id ≡ key) ⊎ (load_lt (load_of j) (load_of i) ≡ false)
  unfolding get
  conclude-least cursor c (found z) i j f covers e own a = inl (ground arith)
  conclude-least cursor c (candidates cs) i j f covers e own a = inr (
      (Covered-lookup (λ z. load_lt (load_of z) (load_of i) ≡ false) j.instance_id j
          (covers (choose-least key revision cursor c cs i e)).1 own).0
        j (rw own a))

  judge-alias :
      (j : ModelInstance)
      → eligible revision excluded j ≡ true
      → j.instance_id ≢ key
      → j.requested_model_id ≡ key
      → judge key revision excluded (some j) ≡ alias j
  unfolding judge
  judge-alias j e other named =
      ground (arith, eq_iff j.instance_id key, eq_iff j.requested_model_id key)

-- A request for an alias goes to an instance with the least load: no other registered instance
-- that could have served it has fewer requests, or as many with fewer of them queued. Only a name
-- that is the id of the instance itself takes it whatever its load is.
pub resolve-least :
    (name : String) (revision : Option String) (excluded : List String) (r : Registry)
    (cursor c : Cursor) (i j : ModelInstance) (k : String)
    → IsKeyed r
    → resolve name revision excluded r cursor ≡ ok (c, i)
    → lookup k r ≡ some j
    → eligible revision excluded j ≡ true
    → j.instance_id ≢ strip name
    → j.requested_model_id ≡ strip name
    → (i.instance_id ≡ strip name) ⊎ (load_lt (load_of j) (load_of i) ≡ false)
unfolding resolve
resolve-least name revision excluded r cursor c i j k keyed h found_j passes other named =
    let key = strip name in
    conclude-least key revision excluded r cursor c (scan key revision excluded r [] (snapshots r))
      i j (scan-ScanFits key revision excluded r [] (snapshots r) tt)
      (scan-Covers key revision excluded r _ [] (snapshots r)) (ground arith)
      (ap (λ z. lookup z r) (keyed.at_key k j found_j) ∙ found_j)
      (judge-alias key revision excluded r j passes other named)
