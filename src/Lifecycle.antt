-- ===== src/Lifecycle.antt =====
-- `InstanceLifecycle` and `_TRANSITIONS` of tokenity/control/instances.py.
use tokenity.Common.{ℕ, ◌≡◌, ◌↔◌, Bool, true, false, List, [], ◌∷◌, Eq, nat_beq, arith}

pub data Lifecycle : Type 0 where
  discovered : Lifecycle
  available : Lifecycle
  queued : Lifecycle
  launching : Lifecycle
  distributed_initializing : Lifecycle
  loading_metadata : Lifecycle
  materializing_weights : Lifecycle
  compiling_warming : Lifecycle
  ready : Lifecycle
  busy : Lifecycle
  unloading : Lifecycle
  stopped : Lifecycle
  failed : Lifecycle
  orphaned : Lifecycle

abbrev ordinal : Lifecycle → ℕ
ordinal discovered = 0
ordinal available = 1
ordinal queued = 2
ordinal launching = 3
ordinal distributed_initializing = 4
ordinal loading_metadata = 5
ordinal materializing_weights = 6
ordinal compiling_warming = 7
ordinal ready = 8
ordinal busy = 9
ordinal unloading = 10
ordinal stopped = 11
ordinal failed = 12
ordinal orphaned = 13

abbrev pub lifecycle_beq : Lifecycle → Lifecycle → Bool
lifecycle_beq a b = nat_beq (ordinal a) (ordinal b)

pub lifecycle_beq_iff : (a b : Lifecycle) → (lifecycle_beq a b ≡ true) ↔ (a ≡ b)
lifecycle_beq_iff a b = ground arith

instance abbrev pub lifecycle_eq : Eq Lifecycle
lifecycle_eq = record { equal = lifecycle_beq; equal_iff = lifecycle_beq_iff }

-- `_TRANSITIONS`
unfoldable pub transitions : Lifecycle → List Lifecycle
transitions discovered = available ∷ failed ∷ []
transitions available = queued ∷ stopped ∷ failed ∷ []
transitions queued = launching ∷ unloading ∷ failed ∷ []
transitions launching = distributed_initializing ∷ loading_metadata ∷ unloading ∷ failed ∷ []
transitions distributed_initializing = loading_metadata ∷ unloading ∷ failed ∷ []
transitions loading_metadata = materializing_weights ∷ unloading ∷ failed ∷ []
transitions materializing_weights = compiling_warming ∷ unloading ∷ failed ∷ []
transitions compiling_warming = ready ∷ unloading ∷ failed ∷ []
transitions ready = busy ∷ unloading ∷ failed ∷ orphaned ∷ []
transitions busy = ready ∷ unloading ∷ failed ∷ orphaned ∷ []
transitions unloading = stopped ∷ failed ∷ []
transitions stopped = queued ∷ []
transitions failed = queued ∷ unloading ∷ stopped ∷ []
transitions orphaned = unloading ∷ stopped ∷ failed ∷ []

-- `state in {READY, BUSY}`
abbrev pub serves : Lifecycle → Bool
serves ready = true
serves busy = true
serves _ = false
