-- ===== src/Instance/Trace.antt =====
-- Which states an instance must pass through before it serves a request.
use tokenity.Common.{
  ◌≡◌, refl, Bool, true, false, ◌||◌, ◌==◌, List, [], ◌∷◌, inl, inr, arith, Bool-cases,
}
use tokenity.Lifecycle.{
  Lifecycle, lifecycle_eq, lifecycle_beq_iff, queued, launching, distributed_initializing,
  loading_metadata, materializing_weights, compiling_warming, ready, busy, serves,
}
use tokenity.Instance.{ModelInstance, Call, step, run, transits}

-- The instance is in the state, now or after one of the calls.
pub visits : Lifecycle → ModelInstance → List Call → Bool
visits l s [] = s.state == l
visits l s (c ∷ cs) = (s.state == l) || visits l (step s c) cs

-- The states at the gate or behind it, on the way to `ready`.
abbrev behind : Lifecycle → Lifecycle → Bool
behind launching launching = true
behind launching distributed_initializing = true
behind launching loading_metadata = true
behind launching materializing_weights = true
behind launching compiling_warming = true
behind loading_metadata loading_metadata = true
behind loading_metadata materializing_weights = true
behind loading_metadata compiling_warming = true
behind materializing_weights materializing_weights = true
behind materializing_weights compiling_warming = true
behind compiling_warming compiling_warming = true
behind _ ready = true
behind _ busy = true
behind _ _ = false

abbrev is_gate : Lifecycle → Bool
is_gate launching = true
is_gate loading_metadata = true
is_gate materializing_weights = true
is_gate compiling_warming = true
is_gate _ = false

behind-step :
    (l : Lifecycle) (s : ModelInstance) (c : Call)
    → is_gate l ≡ true
    → behind l s.state ≡ false
    → behind l (step s c).state ≡ true
    → (step s c).state ≡ l
unfolding step
behind-step l s (transits state expected evidence error now) g h k = ground arith
behind-step l s _ g h k = ground arith

visits_first :
    (l : Lifecycle) (s : ModelInstance) (cs : List Call) → s.state ≡ l → visits l s cs ≡ true
unfolding visits
visits_first l s [] h = ground (arith, lifecycle_beq_iff s.state l)
visits_first l s (c ∷ cs) h = ground (arith, lifecycle_beq_iff s.state l)

visits_gate :
    (l : Lifecycle) (s : ModelInstance) (cs : List Call)
    → is_gate l ≡ true
    → behind l s.state ≡ false
    → behind l (run s cs).state ≡ true
    → visits l s cs ≡ true
unfolding visits run
visits_gate l s [] g h k = cc
visits_gate l s (c ∷ cs) g h k = elim (Bool-cases (behind l (step s c).state)) [
  | inl e ↦ ground (arith, visits_first l (step s c) cs (behind-step l s c g h e))
  | inr e ↦ ground (arith, visits_gate l (step s c) cs g e k)
]

-- However it is called, an instance that starts as queued and ends up serving requests has been
-- launching, has loaded metadata, has materialized its weights and has been warmed up on the way.
pub serving_needs_load :
    (s : ModelInstance) (cs : List Call)
    → s.state ≡ queued
    → serves (run s cs).state ≡ true
    → (visits launching s cs ≡ true)
      × (visits loading_metadata s cs ≡ true)
      × (visits materializing_weights s cs ≡ true)
      × (visits compiling_warming s cs ≡ true)
serving_needs_load s cs q h = (
  visits_gate launching s cs refl (ground arith) (ground arith),
  visits_gate loading_metadata s cs refl (ground arith) (ground arith),
  visits_gate materializing_weights s cs refl (ground arith) (ground arith),
  visits_gate compiling_warming s cs refl (ground arith) (ground arith),
)
