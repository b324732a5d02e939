-- ===== src/Agent/Quorum/Healthy.antt =====
-- A report in which `instance_quorum` of tokenity/node_agent/agent.py finds nothing wrong.
use tokenity.Common.{
  ℕ, ◌≡◌, refl, ap, subst, Bool, true, false, ◌==◌, not, is_none, All, eq_iff, List, [], ◌∷◌, ◌++◌,
  Option, none, some, String, ℤ, nat_eq, string_eq, nat_beq_iff, arith, Option-cases, inl, inr,
}
use tokenity.Instance.{ModelInstance}
use tokenity.Agent.Quorum.{no_issue}
use tokenity.Agent.Quorum.Reports.{
  Issue, Report, Runtime, Evidence, found, runtime_issues, runtime_checks, reported_issues,
  evidence_issues, rank_issues, issue_if, joined, resource_refused, process_not_running,
  heartbeat_stale, revision_mismatch, tokenizer_unavailable, rank_eq, is_text, is_number,
  is_serving_phase, is_other_revision, named_identity,
}

-- The rank is loaded, serves this instance and this launch of it, and its process runs.
pub record IsHealthy (i : ModelInstance) (report : Report) : Type 0 where
  runtime : Runtime
  reported : report.runtime ≡ some runtime
  resources : report.resource_issue ≡ ""
  running : report.process_running ≡ true
  instance_id : runtime.instance_id ≡ some i.instance_id
  operation_id : runtime.operation_id ≡ some i.operation_id
  phase : is_serving_phase runtime.phase ≡ true
  fresh : runtime.status_stale ≡ false
  world_size : runtime.world_size ≡ some i.world_size
  connection_mode : runtime.connection_mode ≡ some i.connection_mode
  revision : is_other_revision i.model_revision runtime.model_revision ≡ false
  evidence : Evidence
  shown : runtime.ready_evidence ≡ some evidence
  materialized : evidence.weights_materialized ≡ true
  tokenizer : evidence.tokenizer_ready ≡ true
  engine : evidence.generation_engine_ready ≡ true

-- Nothing is wrong in two lists where nothing is wrong in each.
pub both :
    (xs ys : List Issue) → no_issue (xs ++ ys) ≡ true → (no_issue xs ≡ true) × (no_issue ys ≡ true)
both [] ys h = (refl, h)
both (x ∷ xs) ys h = cc

pub each :
    (xss : List (List Issue)) → no_issue (joined xss) ≡ true → All (λ xs. no_issue xs ≡ true) xss
each [] h = tt
each (xs ∷ xss) h = let (a, b) = both xs (joined xss) h in (a, each xss b)

pub unless : (b : Bool) (issue : Issue) → no_issue (issue_if b issue) ≡ true → b ≡ false
unless b issue h = ground (arith, h)

some_text : (o : Option String) (t : String) → is_text o t ≡ true → o ≡ some t
some_text none t h = cc
some_text (some s) t h = ap some ((eq_iff s t).0 h)

some_number : (o : Option ℕ) (n : ℕ) → is_number o n ≡ true → o ≡ some n
some_number none n h = cc
some_number (some m) n h = ap some ((nat_beq_iff m n).0 h)

-- Evidence without an issue is there and says yes three times.
shown_evidence :
    (node : String) (o : Option Evidence)
    → no_issue (evidence_issues node o) ≡ true
    → (e : Evidence) × (o ≡ some e)
      × (e.weights_materialized ≡ true)
      × (e.tokenizer_ready ≡ true)
      × (e.generation_engine_ready ≡ true)
shown_evidence node none h = cc
shown_evidence node (some e) h = (e, refl, ground (arith, h), ground (arith, h), ground (arith, h))

module _ (i : ModelInstance) (seen : List ℤ) (report : Report) where
  healthy :
      (r : Runtime)
      → report.runtime ≡ some r
      → no_issue (runtime_issues i seen report.node r) ≡ true
      → report.process_running ≡ true
      → report.resource_issue ≡ ""
      → IsHealthy i report
        × (is_none (named_identity r.tokenizer_identity) ≡ false)
        × (no_issue (rank_issues report.node seen r.rank) ≡ true)
  unfolding runtime_issues
  healthy r e h running resources =
      let (a, (b, (c, (d, (f, (g, (k, (l, (m, (new, end)))))))))) =
        each (runtime_checks i seen report.node r) h in
      let (evidence, shown, w, t, n) = shown_evidence report.node r.ready_evidence m in
      (
        (record {
          runtime = r;
          reported = e;
          resources = resources;
          running = running;
          instance_id = some_text r.instance_id i.instance_id (ground (arith, a));
          operation_id = some_text r.operation_id i.operation_id (ground (arith, b));
          phase = ground (arith, c);
          fresh = unless r.status_stale (heartbeat_stale report.node) d;
          world_size = some_number r.world_size i.world_size (ground (arith, f));
          connection_mode = some_text r.connection_mode i.connection_mode (ground (arith, g));
          revision =
              unless (is_other_revision i.model_revision r.model_revision)
                (revision_mismatch report.node) k;
          evidence = evidence;
          shown = shown;
          materialized = w;
          tokenizer = t;
          engine = n;
        }),
        unless (is_none (named_identity r.tokenizer_identity)) (tokenizer_unavailable report.node)
            l,
        new,
      )

-- A report in which nothing is wrong.
pub found_none :
    (i : ModelInstance) (seen : List ℤ) (report : Report)
    → no_issue (found i seen report) ≡ true
    → (r : Runtime) × (report.runtime ≡ some r)
      × IsHealthy i report
      × (is_none (named_identity r.tokenizer_identity) ≡ false)
      × (no_issue (rank_issues report.node seen r.rank) ≡ true)
unfolding found
found_none i seen report h =
    let (a, b) =
      both
        (issue_if (not (report.resource_issue == ""))
          (resource_refused report.node report.resource_issue))
        (reported_issues i seen report report.runtime) h in
    elim (Option-cases report.runtime) [
      | inl e ↦
          absurd
            (ground (arith, subst (λ o. no_issue (reported_issues i seen report o) ≡ true) e b))
      | inr (r, e) ↦
          let (c, d) =
            both (runtime_issues i seen report.node r)
              (issue_if (not report.process_running) (process_not_running report.node))
              (subst (λ o. no_issue (reported_issues i seen report o) ≡ true) e b) in
          let (x, y, z) =
            healthy i seen report r e c (ground (arith, d))
              ((eq_iff report.resource_issue "").0 (ground (arith, a))) in
          (r, e, x, y, z)
    ]
