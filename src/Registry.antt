-- ===== src/Registry.antt =====
-- `InstanceRegistry` of tokenity/control/instances.py: the instances that the agent knows, by id.
-- Each method holds the registry's lock for its whole body, so it is one step here. A method that
-- returns an instance hands out the object in the registry; a change of it is an update here.
pub mod Ownership
pub mod Counters
mod Tests
use tokenity.Common.{
  ℕ, Bool, true, false, if◌then◌else◌, ◌==◌, List, map, Option, none, some, String, Dict, lookup,
  insert, erase, sort, string_eq,
}
use tokenity.Errors.{Result, ok, err, instance_conflict, ◌>>=◌}
use tokenity.Instance.{
  ModelInstance, post_init, acquire_request_lease, release_request_lease, enqueue_request,
  dequeue_request,
}

abbrev pub Registry : Type 0
Registry = Dict String ModelInstance

-- `values.get(name) or uuid.uuid4()`: an empty text counts as missing.
abbrev pub given_or_fresh : Option String → String → String
given_or_fresh none fresh = fresh
given_or_fresh (some s) fresh = if s == "" then fresh else s

-- The branch of `create` by what is registered under the id.
unfoldable pub create_at :
    String
    → String
    → ModelInstance
    → Registry
    → Option ModelInstance
    → Result (Registry × ModelInstance × Bool)
unfolding post_init
create_at id operation values r (some existing) =
    if existing.operation_id == operation then ok (r, existing, false) else err instance_conflict
create_at id operation values r none = do
  instance ← post_init (record values { instance_id = id; operation_id = operation })
  ok (insert id instance r, instance, true)

-- `create(**values)`: the other values stand in `values`, and the two fresh ids are what `uuid4`
-- gives where an id is missing.
unfoldable pub create :
    Option String
    → Option String
    → String
    → String
    → ModelInstance
    → Registry
    → Result (Registry × ModelInstance × Bool)
unfolding create_at
create instance_id operation_id fresh_instance fresh_operation values r =
    let id = given_or_fresh instance_id fresh_instance in
    create_at id (given_or_fresh operation_id fresh_operation) values r (lookup id r)

unfoldable pub get : String → Registry → Option ModelInstance
get id r = lookup id r

unfoldable pub remove : String → Registry → Registry × Option ModelInstance
remove id r = (erase id r, lookup id r)

-- `snapshots`: in the order of the ids
unfoldable pub snapshots : Registry → List ModelInstance
snapshots r = map (λ e. e.1) (sort (λ e. e.0) r)

-- The four request methods look the instance up and call its method of the same name.
unfoldable pub on_instance :
    (ModelInstance → Result (ModelInstance × ℕ))
    → String
    → Registry
    → Result (Registry × ModelInstance)
on_instance method id r = elim (lookup id r) [
  | none ↦ err instance_conflict
  | some instance ↦ (do (changed, _) ← method instance; ok (insert id changed r, changed))
]

unfoldable pub acquire : ℕ → String → Registry → Result (Registry × ModelInstance)
unfolding on_instance
acquire now = on_instance (acquire_request_lease now)

unfoldable pub release : ℕ → String → Registry → Result (Registry × ModelInstance)
unfolding on_instance
release now = on_instance (release_request_lease now)

unfoldable pub enqueue : ℕ → String → Registry → Result (Registry × ModelInstance)
unfolding on_instance
enqueue now = on_instance (enqueue_request now)

unfoldable pub dequeue : ℕ → String → Registry → Result (Registry × ModelInstance)
unfolding on_instance
dequeue now = on_instance (dequeue_request now)
