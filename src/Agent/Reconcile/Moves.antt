-- ===== src/Agent/Reconcile/Moves.antt =====
-- When `reconcile_instance_runtime` of tokenity/node_agent/agent.py changes the state of an instance.
use tokenity.Common.{
  ℕ, ◌≡◌, ◌⊎◌, refl, Bool, true, false, if◌then◌else◌, ◌==◌, ◌&&◌, not, contains, [], ◌∷◌, Option,
  none, some, String, Dict, lookup, insert, nat_eq, string_eq, eq_iff, arith, inl, inr, Bool-cases,
  Option-cases,
}
use tokenity.Errors.{Error}
use tokenity.Lifecycle.{
  Lifecycle, lifecycle_eq, distributed_initializing, loading_metadata, materializing_weights,
  compiling_warming, ready, unloading, stopped, failed, transitions,
}
use tokenity.Instance.{ModelInstance, Document, transition}
use tokenity.Agent.Quorum.{advance_from}
use tokenity.Agent.Quorum.Reports.{is_text, is_number, is_other_revision}
use tokenity.Agent.Reconcile.{
  Published, version_of, is_older, mismatch, merge_runtime_clock, fail, load, loaded,
  is_authoritative, apply, reconcile_instance_runtime,
}

-- The runtime is the instance's, and its word is not old.
pub record IsOwn (i : ModelInstance) (versions : Dict String ℕ) (r : Published) : Type 0 where
  instance_id : is_text r.instance_id i.instance_id ≡ true
  operation_id : is_text r.operation_id i.operation_id ≡ true
  world_size : is_number r.world_size i.world_size ≡ true
  connection_mode : is_text r.connection_mode i.connection_mode ≡ true
  revision : is_other_revision i.model_revision r.model_revision ≡ false
  fresh : r.status_stale ≡ false
  not_older : is_older (version_of r) (lookup i.instance_id versions) ≡ false

-- A move is to failed, or to ready by one who may say so.
unfoldable pub IsMove : Published → Bool → String → ModelInstance → Lifecycle → Type 0
IsMove r running role i state =
    ((r.phase ≡ "failed") × (state ≡ failed))
    ⊎ ((r.phase ≡ "ready") × (running ≡ true) × (is_authoritative role i ≡ true) × (state ≡ ready))

abbrev may_fail : Lifecycle → Bool
may_fail state = not (contains state (failed ∷ unloading ∷ stopped ∷ []))

abbrev is_loading : Lifecycle → Bool
is_loading distributed_initializing = true
is_loading loading_metadata = true
is_loading materializing_weights = true
is_loading compiling_warming = true
is_loading _ = false

fail_lem :
    (r : Published) (now : ℕ) (i : ModelInstance)
    → (fail r now i).state ≡ (if may_fail i.state then failed else i.state)
unfolding fail transition transitions
fail_lem r now i = ground arith

load_lem :
    (evidence : Document) (now : ℕ) (i : ModelInstance)
    → ((load evidence now i).1 ≡ none)
      × ((load evidence now i).0.state ≡ (if is_loading i.state then ready else i.state))
unfolding load advance_from transition transitions
load_lem evidence now i = (ground arith, ground arith)

-- The new state is the old one, or the one that a test lets it go to.
either :
    (b : Bool) (state old new : Lifecycle)
    → state ≡ (if b then new else old)
    → (state ≡ old) ⊎ (state ≡ new)
either true state old new h = inr h
either false state old new h = inl h

module _ (r : Published) (running : Bool) (role : String) (now : ℕ) where
  abbrev Goes : ModelInstance → Lifecycle → Type 0
  Goes i state = (state ≡ i.state) ⊎ IsMove r running role i state

  loaded-Goes :
      (versions : Dict String ℕ) (i : ModelInstance) (m : ModelInstance × Option Error)
      → m.1 ≡ none
      → (m.0.state ≡ i.state) ⊎ (m.0.state ≡ ready)
      → r.phase ≡ "ready"
      → running ≡ true
      → is_authoritative role i ≡ true
      → Goes i (loaded r now versions m).instance_after.state
  unfolding IsMove merge_runtime_clock
  loaded-Goes versions i (j, some e) n h a b c = absurd (ground (arith, n))
  loaded-Goes versions i (j, none) n (inl h) a b c = inl h
  loaded-Goes versions i (j, none) n (inr h) a b c = inr (inr (a, b, c, h))

  apply-Goes :
      (versions : Dict String ℕ) (i : ModelInstance)
      → Goes i (apply r running role now versions i).instance_after.state
  unfolding apply IsMove merge_runtime_clock
  apply-Goes versions i = elim (Bool-cases (r.phase == "failed")) [
    | inl y ↦
        rw y
          (elim (either (may_fail i.state) (fail r now i).state i.state failed (fail_lem r now i)) [
            | inl h ↦ inl h
            | inr h ↦ inr (inl ((eq_iff r.phase "failed").0 y, h))
          ])
    | inr n ↦ elim (Bool-cases (r.phase == "ready" && running && is_authoritative role i)) [
      | inl y ↦
          let (whole, state) = load_lem r.evidence now i in
          rw (n, y)
            (loaded-Goes versions i (load r.evidence now i) whole
              (either (is_loading i.state) (load r.evidence now i).0.state i.state ready state)
              ((eq_iff r.phase "ready").0 (ground (arith, y))) (ground (arith, y))
              (ground (arith, y)))
      | inr m ↦ rw (n, m) (inl refl)
    ]
  ]

  own :
      (versions : Dict String ℕ) (i : ModelInstance)
      → is_older (version_of r) (lookup i.instance_id versions) ≡ false
      → mismatch i r ≡ none
      → IsOwn i versions r
  unfolding mismatch
  own versions i o h = record {
    instance_id = ground (arith, h);
    operation_id = ground (arith, h);
    world_size = ground (arith, h);
    connection_mode = ground (arith, h);
    revision = ground (arith, h);
    fresh = ground (arith, h);
    not_older = o;
  }

  -- The state of the instance stays as it is, unless the runtime is the instance's own, for its world,
  -- connection and revision, neither stale nor older than what was seen of it; and then it goes only to
  -- failed, where the runtime has failed, or to ready, where the runtime is ready, its process runs and
  -- its rank speaks for itself or is the only one.
  pub reconcile-moves :
      (versions : Dict String ℕ) (i : ModelInstance)
      → ((reconcile_instance_runtime r running role now versions i).instance_after.state ≡ i.state)
        ⊎ (IsOwn i versions r
            × IsMove r running role i
                (reconcile_instance_runtime r running role now versions i).instance_after.state)
  unfolding reconcile_instance_runtime
  reconcile-moves versions i =
      elim (Bool-cases (is_older (version_of r) (lookup i.instance_id versions))) [
        | inl y ↦ rw y (inl refl)
        | inr n ↦ elim (Option-cases (mismatch i r)) [
          | inr (issue, e) ↦ rw (n, e) (inl refl)
          | inl e ↦
              rw (n, e)
                (elim (apply-Goes (insert i.instance_id (version_of r) versions) i) [
                  | inl h ↦ inl h
                  | inr h ↦ inr (own versions i n e, h)
                ])
        ]
      ]
