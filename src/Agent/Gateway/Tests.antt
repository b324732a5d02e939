-- ===== src/Agent/Gateway/Tests.antt =====
-- A chat request for a model that two instances serve; the first one fails to open.
use tokenity.Common.{
  ◌≡◌, refl, true, false, String, [], ◌∷◌, some, ℕ, arith, eq_iff, lookup, insert, strip, sort,
  All-lookup, string_eq, ltb, if◌then◌else◌, contains,
}
use tokenity.Instance.{ModelInstance, acquire_request_lease}
use tokenity.Instance.Samples.{sample}
use tokenity.Lifecycle.{ready}
use tokenity.Registry.{Registry, get, snapshots, acquire, on_instance}
use tokenity.Router.{resolve, eligible, scan, judge, choose, least_loaded, minimum_load, lesser}
use tokenity.Agent.Gateway.{
  Env, Target, Loop, Ending, raises_unsent, holds_lease, holds_slot, responds, granted, failed,
  status, OpenAnswer, started, failover, resolve_target, needs_another, after_failure, after_open,
  after_lease, after_slot, try_instance, round,
}
use tokenity.Agent.Gateway.Balance.{IsSettled, IsIdle, failover-IsSettled}
use tokenity.Agent.Gateway.Ends.{TriedOnce, is_endless, failover_ends}

abbrev a : ModelInstance
a = sample "a" "qwen" ready

abbrev b : ModelInstance
b = sample "b" "qwen" ready

abbrev two : Registry
two = ("b", b) ∷ ("a", a) ∷ []

abbrev one_failure : ℕ → OpenAnswer
one_failure n = if ltb n 4 then failed else status 200

abbrev env : Env
env = record {
  registry = λ n. two;
  cursor = λ n. [];
  slot = λ n. granted;
  encodes = λ n. true;
  opens = one_failure;
  now = λ n. n;
}

abbrev qwen : Target
qwen = record { model_id = "qwen"; revision = "unversioned"; kind = "primary" }

second_try : (failover env [] false 2 (qwen ∷ []) (started a)).0 ≡ responds b
unfolding failover round try_instance needs_another resolve_target after_slot after_lease after_open
    after_failure acquire on_instance acquire_request_lease resolve scan judge choose least_loaded
    minimum_load lesser eligible get snapshots strip sort lookup insert
second_try = refl

two_known :
    (n : ℕ) (k : String) (i : ModelInstance)
    → lookup k (env.registry n) ≡ some i
    → contains i.instance_id ("a" ∷ "b" ∷ []) ≡ true
two_known n k i =
    All-lookup (λ e. contains e.1.instance_id ("a" ∷ "b" ∷ []) ≡ true) k i two
      (ground (arith, eq_iff "a" "b", eq_iff "b" "b"), (ground (arith, eq_iff "a" "a"), tt))

failover_ends_example :
    TriedOnce env [] false
      ("a" ∷ "b" ∷ [])
      (failover env [] false 2 (qwen ∷ []) (started a)).1.attempted_instances
    × (is_endless env [] false ("a" ∷ "b" ∷ []) (failover env [] false 2 (qwen ∷ []) (started a)).0
        ≡ false)
failover_ends_example =
    failover_ends env [] false ("a" ∷ "b" ∷ []) two_known (qwen ∷ []) a
      (ground (arith, eq_iff "a" "a")) refl

failover-IsSettled_example :
    IsSettled
      (failover env [] false 2 (qwen ∷ []) (started a)).0
      (failover env [] false 2 (qwen ∷ []) (started a)).1
unfolding IsIdle
failover-IsSettled_example = failover-IsSettled env [] false 2 (qwen ∷ []) (started a) (refl, refl)

-- The payload of the request cannot be encoded: the request is left with its slot and lease.
abbrev unencodable : Env
unencodable = record env { encodes = λ n. false }

abbrev left : Ending × Loop
left = failover unencodable [] false 2 (qwen ∷ []) (started a)

leaks : (left.0 ≡ raises_unsent a) × (left.1.trace ≡ holds_lease "a" ∷ holds_slot "a" ∷ [])
unfolding failover round try_instance needs_another resolve_target after_slot after_lease after_open
    after_failure acquire on_instance acquire_request_lease lookup insert
leaks = (refl, refl)
