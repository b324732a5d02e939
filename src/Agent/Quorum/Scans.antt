-- ===== src/Agent/Quorum/Scans.antt =====
-- What the loop of `instance_quorum` of tokenity/node_agent/agent.py has gathered in the end.
use tokenity.Common.{
  ◌≡◌, refl, sym, ◌∙◌, ap, subst, Bool, true, false, ◌||◌, contains, any, is_none, All, eq_iff,
  List, [], ◌∷◌, ◌++◌, Option, none, some, String, ℤ, nat_eq, string_eq, arith, Option-cases, inl,
  inr,
}
use tokenity.Instance.{ModelInstance}
use tokenity.Agent.Quorum.{Scan, add_identity, add_rank, or_before, examine, scan, no_issue}
use tokenity.Agent.Quorum.Reports.{Report, found, rank_issues, rank_eq, named_identity, probe_of}
use tokenity.Agent.Quorum.Healthy.{IsHealthy, both, found_none}

-- The rank, the identity and the probe of a report.
abbrev pub rank_of : Report → Option ℤ
rank_of r = elim r.runtime [ none ↦ none | some runtime ↦ runtime.rank ]

abbrev pub identity_of : Report → Option String
identity_of r = elim r.runtime [
  | none ↦ none
  | some runtime ↦ named_identity runtime.tokenizer_identity
]

abbrev pub probed : Report → Option Bool
probed r = elim r.runtime [
  | none ↦ none
  | some runtime ↦ probe_of runtime.rank runtime.ready_evidence
]

-- The ranks in the order of the reports.
unfoldable pub ranks_of : List Report → List ℤ
ranks_of [] = []
ranks_of (r ∷ rs) = let rest = ranks_of rs in add_rank (rank_of r) rest

-- Each of the numbers is another one than those before it.
unfoldable pub AreNew : List ℤ → List ℤ → Type 0
AreNew seen [] = Unit
AreNew seen (k ∷ ks) = (contains k seen ≡ false) × AreNew (k ∷ seen) ks

abbrev pub is_some_in : Option String → List String → Bool
is_some_in none names = false
is_some_in (some name) names = contains name names

gathers :
    (i : ModelInstance) (s : Scan) (r : Report)
    → ((examine i s r).issues ≡ s.issues ++ found i s.seen_ranks r)
      × ((examine i s r).seen_ranks ≡ add_rank (rank_of r) s.seen_ranks)
      × ((examine i s r).tokenizer_identities ≡ add_identity (identity_of r) s.tokenizer_identities)
      × ((examine i s r).rank0_probe_succeeded ≡ or_before (probed r) s.rank0_probe_succeeded)
unfolding examine
gathers i s r = elim (Option-cases r.runtime) [
  | inl e ↦ rw e (refl, refl, refl, refl)
  | inr (x, e) ↦ rw e (refl, refl, refl, refl)
]

new_rank :
    (node : String) (o : Option ℤ) (seen ks : List ℤ)
    → no_issue (rank_issues node seen o) ≡ true
    → AreNew (add_rank o seen) ks
    → AreNew seen (add_rank o ks)
unfolding AreNew
new_rank node none seen ks h a = a
new_rank node (some k) seen ks h a = (ground (arith, h), a)

-- No issue in the end means that each report is in order, and brings a new rank if any.
pub scan_issues :
    (i : ModelInstance) (s : Scan) (rs : List Report)
    → no_issue (scan i s rs).issues ≡ true
    → (no_issue s.issues ≡ true)
      × All (IsHealthy i) rs
      × All (λ r. is_none (identity_of r) ≡ false) rs
      × AreNew s.seen_ranks (ranks_of rs)
unfolding scan ranks_of AreNew
scan_issues i s [] h = (h, tt, tt, tt)
scan_issues i s (r ∷ rs) h =
    let (issues, seen, names, probe) = gathers i s r in
    let (a, b, c, d) = scan_issues i (examine i s r) rs h in
    let (before, here) =
      both s.issues (found i s.seen_ranks r) (subst (λ xs. no_issue xs ≡ true) issues a) in
    let (x, e, healthy, named, fresh) = found_none i s.seen_ranks r here in
    (
      before,
      (healthy, b),
      (rw e named, c),
      new_rank r.node (rank_of r) s.seen_ranks (ranks_of rs) (rw e fresh)
          (subst (λ ks. AreNew ks (ranks_of rs)) seen d),
    )

contains-add_rank :
    (k : ℤ) (o : Option ℤ) (xs seen : List ℤ)
    → (contains k xs || contains k (add_rank o seen))
      ≡ (contains k (add_rank o xs) || contains k seen)
contains-add_rank k none xs seen = refl
contains-add_rank k (some j) xs seen = ground arith

pub scan_seen :
    (i : ModelInstance) (s : Scan) (rs : List Report) (k : ℤ)
    → contains k (scan i s rs).seen_ranks ≡ (contains k (ranks_of rs) || contains k s.seen_ranks)
unfolding scan ranks_of
scan_seen i s [] k = refl
scan_seen i s (r ∷ rs) k =
    let (issues, seen, names, probe) = gathers i s r in
    scan_seen i (examine i s r) rs k
    ∙ ap (λ ks. contains k (ranks_of rs) || contains k ks) seen
    ∙ contains-add_rank k (rank_of r) (ranks_of rs) s.seen_ranks

keeps_name :
    (name : String) (o : Option String) (names : List String)
    → contains name names ≡ true
    → contains name (add_identity o names) ≡ true
keeps_name name none names h = h
keeps_name name (some other) names h = ground (arith, h)

adds_name :
    (o : Option String) (names : List String)
    → is_none o ≡ false
    → is_some_in o (add_identity o names) ≡ true
adds_name none names h = cc
adds_name (some name) names h = ground (arith, (eq_iff name name).1 refl)

scan_keeps :
    (i : ModelInstance) (s : Scan) (rs : List Report) (name : String)
    → contains name s.tokenizer_identities ≡ true
    → contains name (scan i s rs).tokenizer_identities ≡ true
unfolding scan
scan_keeps i s [] name h = h
scan_keeps i s (r ∷ rs) name h =
    let (issues, seen, names, probe) = gathers i s r in
    scan_keeps i (examine i s r) rs name (
      subst (λ xs. contains name xs ≡ true) (sym names)
        (keeps_name name (identity_of r) s.tokenizer_identities h))

scan_keeps_some :
    (i : ModelInstance) (s : Scan) (rs : List Report) (o : Option String)
    → is_some_in o s.tokenizer_identities ≡ true
    → is_some_in o (scan i s rs).tokenizer_identities ≡ true
scan_keeps_some i s rs none h = cc
scan_keeps_some i s rs (some name) h = scan_keeps i s rs name h

-- Each identity is among those at the end.
pub scan_names :
    (i : ModelInstance) (s : Scan) (rs : List Report)
    → All (λ r. is_none (identity_of r) ≡ false) rs
    → All (λ r. is_some_in (identity_of r) (scan i s rs).tokenizer_identities ≡ true) rs
unfolding scan
scan_names i s [] h = tt
scan_names i s (r ∷ rs) h =
    let (issues, seen, names, probe) = gathers i s r in
    (
      scan_keeps_some i (examine i s r) rs (identity_of r) (
          subst (λ xs. is_some_in (identity_of r) xs ≡ true) (sym names)
            (adds_name (identity_of r) s.tokenizer_identities h.0)),
      scan_names i (examine i s r) rs h.1,
    )

-- Rank 0 has answered with one token, and its cache is apart from that.
abbrev pub is_probe : Report → Bool
is_probe r = or_before (probed r) false

probe_step :
    (o : Option Bool) (b before : Bool)
    → (b || or_before o before) ≡ true
    → (or_before o false || b || before) ≡ true
probe_step none b before h = ground (arith, h)
probe_step (some now) b before h = ground (arith, h)

pub scan_probe :
    (i : ModelInstance) (s : Scan) (rs : List Report)
    → (scan i s rs).rank0_probe_succeeded ≡ true
    → (any is_probe rs || s.rank0_probe_succeeded) ≡ true
unfolding scan
scan_probe i s [] h = h
scan_probe i s (r ∷ rs) h =
    let (issues, seen, names, probe) = gathers i s r in
    probe_step (probed r) (any is_probe rs) s.rank0_probe_succeeded
      (subst (λ b. (any is_probe rs || b) ≡ true) probe (scan_probe i (examine i s r) rs h))
