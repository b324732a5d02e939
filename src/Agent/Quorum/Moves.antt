-- ===== src/Agent/Quorum/Moves.antt =====
-- What `instance_quorum` of tokenity/node_agent/agent.py does to the instance.
use tokenity.Common.{
  ℕ, ◌+◌, ◌≡◌, refl, Bool, true, false, if◌then◌else◌, ◌&&◌, not, List, Option, none, some, String,
  arith, Bool-cases, inl, inr, ◌==◌,
}
use tokenity.Errors.{Error}
use tokenity.Lifecycle.{
  Lifecycle, lifecycle_eq, loading_metadata, materializing_weights, compiling_warming, ready,
  transitions,
}
use tokenity.Instance.{ModelInstance, Document, transition}
use tokenity.Agent.Quorum.{
  nothing_seen, scan, issues_of, is_ready, advance_from, advance, Outcome, concluded, with_health,
  instance_quorum,
}
use tokenity.Agent.Quorum.Reports.{Issue, Report}

-- How many transitions lead from a state of loading to ready.
abbrev pub to_ready : Lifecycle → ℕ
to_ready loading_metadata = 3
to_ready materializing_weights = 2
to_ready compiling_warming = 1
to_ready _ = 0

abbrev pub after_loading : Lifecycle → Lifecycle
after_loading loading_metadata = ready
after_loading materializing_weights = ready
after_loading compiling_warming = ready
after_loading state = state

advance_lem :
    (evidence : Document) (now : ℕ) (i : ModelInstance)
    → ((advance evidence now i).1 ≡ none)
      × ((advance evidence now i).0.state ≡ after_loading i.state)
      × ((advance evidence now i).0.version ≡ i.version + to_ready i.state)
      × ((advance evidence now i).0.health_ready ≡ i.health_ready)
unfolding advance advance_from transition transitions
advance_lem evidence now i = (ground arith, ground arith, ground arith, ground arith)

concluded-none :
    (issues : List Issue) (m : ModelInstance × Option Error)
    → m.1 ≡ none
    → concluded issues m ≡ record { ready = true; issues = issues; instance_after = m.0 }
concluded-none issues (i, none) h = refl
concluded-none issues (i, some e) h = cc

-- The end of the request, for the instance with its health written.
decided :
    (yes : Bool) (issues : List Issue) (evidence : Document) (now : ℕ) (i : ModelInstance)
    (o : Outcome)
    → o ≡ (
        if yes && not (i.state == ready)
        then concluded issues (advance evidence now i)
        else record { ready = yes; issues = issues; instance_after = i })
    → (o.ready ≡ yes)
      × (o.issues ≡ issues)
      × (o.instance_after.health_ready ≡ i.health_ready)
      × (o.instance_after.state ≡ (if yes then after_loading i.state else i.state))
      × (o.instance_after.version ≡ i.version + (if yes then to_ready i.state else 0))
decided false issues evidence now i o e = rw e (refl, refl, refl, refl, omega arith)
decided true issues evidence now i o e = elim (Bool-cases (i.state == ready)) [
  | inl q ↦ rw (e, q) (refl, refl, refl, ground (arith, q), ground (arith, q))
  | inr m ↦
      let (a, b, c, d) = advance_lem evidence now i in
      rw (e, m, concluded-none issues (advance evidence now i) a) (refl, refl, d, b, c)
]

-- The answer is whether the ranks count as ready, with the issues found, and no transition fails; the
-- health that the instance shows is the answer; and an instance that is loading goes on to ready with
-- a version for each state in between exactly where the answer is yes, and keeps its state and its
-- version otherwise.
pub instance_quorum-moves :
    (message : Issue → String) (evidence : Document) (now : ℕ) (rs : List Report)
    (i : ModelInstance)
    → ((instance_quorum message evidence now rs i).ready ≡ is_ready i rs)
      × ((instance_quorum message evidence now rs i).issues ≡ issues_of i (scan i nothing_seen rs))
      × ((instance_quorum message evidence now rs i).instance_after.health_ready
          ≡ some (is_ready i rs))
      × ((instance_quorum message evidence now rs i).instance_after.state
          ≡ (if is_ready i rs then after_loading i.state else i.state))
      × ((instance_quorum message evidence now rs i).instance_after.version
          ≡ i.version + (if is_ready i rs then to_ready i.state else 0))
unfolding instance_quorum with_health
instance_quorum-moves message evidence now rs i =
    decided (is_ready i rs) (issues_of i (scan i nothing_seen rs)) evidence now
      (with_health message now rs i) (instance_quorum message evidence now rs i) refl
