-- ===== src/Agent/Quorum/Sound.antt =====
-- What it takes that `instance_quorum` of tokenity/node_agent/agent.py says yes.
use tokenity.Common.{
  ℕ, ◌+◌, ◌<◌, ◌≤◌, ◌≡◌, sym, ap, subst, Bool, true, false, ◌==◌, not, ltb, nat_beq, zero, suc,
  All-map, contains, all, any, length, All, eq_iff, List, [], ◌∷◌, Option, none, some, String, ℤ,
  pos, nat_eq, string_eq, nat_beq_iff, arith, Bool-cases, inl, inr,
}
use tokenity.Instance.{ModelInstance}
use tokenity.Agent.{range}
use tokenity.Agent.Quorum.{nothing_seen, scan, is_below, is_quorum, checks_of, issues_of, is_ready}
use tokenity.Agent.Quorum.Reports.{
  Report, rank_quorum_mismatch, tokenizer_mismatch, no_probe, rank_eq, rank_beq_iff,
}
use tokenity.Agent.Quorum.Healthy.{IsHealthy, each, unless}
use tokenity.Agent.Quorum.Scans.{
  identity_of, ranks_of, AreNew, is_some_in, is_probe, scan_issues, scan_seen, scan_names,
  scan_probe,
}

-- One name at most.
single :
    (names : List String)
    → ltb 1 (length names) ≡ false
    → (t : String) × ((o : Option String) → is_some_in o names ≡ true → o ≡ some t)
single [] h = ("", λ o. nowhere o)
  where
    nowhere : (o : Option String) → is_some_in o [] ≡ true → o ≡ some ""
    nowhere none h = cc
    nowhere (some x) h = cc
single (t ∷ []) h = (t, only t)
  where
    only : (t : String) (o : Option String) → is_some_in o (t ∷ []) ≡ true → o ≡ some t
    only t none h = cc
    only t (some x) h = ap some (sym ((eq_iff t x).0 (ground (arith, h))))
single (t ∷ u ∷ names) h = absurd (ground (arith, h))

all-range : (f : ℕ → Bool) (a n k : ℕ) → all f (range a n) ≡ true → a ≤ k → k < a + n → f k ≡ true
unfolding range
all-range f a zero k h l m = absurd (omega arith)
all-range f a (suc n) k h l m = elim (Bool-cases (nat_beq a k)) [
  | inl y ↦ subst (λ x. f x ≡ true) ((nat_beq_iff a k).0 y) (ground (arith, h))
  | inr z ↦ all-range f (a + 1) n k (ground (arith, h)) (ground (arith, z)) (omega arith)
]

all-contains :
    (f : ℤ → Bool) (ks : List ℤ) (k : ℤ) → all f ks ≡ true → contains k ks ≡ true → f k ≡ true
all-contains f [] k h c = cc
all-contains f (j ∷ ks) k h c = elim (Bool-cases (j == k)) [
  | inl y ↦ subst (λ x. f x ≡ true) ((rank_beq_iff j k).0 y) (ground (arith, h))
  | inr z ↦ all-contains f ks k (ground (arith, h)) (ground (arith, c, z))
]

-- As many ranks as the instance has, each of them healthy and each with a number of its own, the
-- numbers of the instance and no others; one identity of the tokenizer; and the probe of rank 0.
pub record IsQuorum (i : ModelInstance) (rs : List Report) : Type 0 where
  count : length rs ≡ i.world_size
  healthy : All (IsHealthy i) rs
  distinct : AreNew [] (ranks_of rs)
  complete : (k : ℕ) → k < i.world_size → contains (pos k) (ranks_of rs) ≡ true
  within : (k : ℤ) → contains k (ranks_of rs) ≡ true → is_below i.world_size k ≡ true
  identity : String
  same : All (λ r. identity_of r ≡ some identity) rs
  probe : any is_probe rs ≡ true

-- Where the ranks count as ready, they are a quorum.
pub is_ready-IsQuorum :
    (i : ModelInstance) (rs : List Report) → is_ready i rs ≡ true → IsQuorum i rs
unfolding is_ready issues_of is_quorum AreNew
is_ready-IsQuorum i rs h =
    let s = scan i nothing_seen rs in
    let (a, (b, (c, (d, end)))) = each (checks_of i s) (ground (arith, h)) in
    let (start, healthy, named, distinct) = scan_issues i nothing_seen rs a in
    let quorum = unless (not (is_quorum i.world_size s.seen_ranks)) rank_quorum_mismatch b in
    let (t, same) =
      single s.tokenizer_identities
        (unless (ltb 1 (length s.tokenizer_identities)) tokenizer_mismatch c) in
    record {
      count = (nat_beq_iff (length rs) i.world_size).0 (ground (arith, h));
      healthy = healthy;
      distinct = distinct;
      complete = λ k l. ground (
        arith,
        scan_seen i nothing_seen rs (pos k),
        all-range (λ j. contains (pos j) s.seen_ranks) 0 i.world_size k (ground (arith, quorum))
            (omega arith) (omega (arith, l)),
      );
      within = λ k c.
          all-contains (is_below i.world_size) s.seen_ranks k (ground (arith, quorum))
            (ground (arith, scan_seen i nothing_seen rs k, c));
      identity = t;
      same =
          All-map (λ r. is_some_in (identity_of r) s.tokenizer_identities ≡ true)
            (λ r. identity_of r ≡ some t) rs (λ r. same (identity_of r))
            (scan_names i nothing_seen rs named);
      probe = ground (
        arith,
        scan_probe i nothing_seen rs
            (ground (arith, unless (not s.rank0_probe_succeeded) no_probe d)),
      );
    }
