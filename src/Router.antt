-- ===== src/Router.antt =====
-- `InstanceRouter` of tokenity/control/instances.py: the instance that serves the next request for
-- a model alias or an instance id. The registry is read once, without a change in between.
pub mod Sound
pub mod Balance
pub mod Turns
mod Tests
use tokenity.Common.{
  ℕ, suc, ◌+◌, ◌%◌, Bool, true, false, if◌then◌else◌, ◌==◌, ◌&&◌, ◌||◌, not, ltb, nat_beq, is_none,
  contains, keep, length, get_or, List, [], ◌∷◌, ◌++◌, Option, none, some, or_default, String, Dict,
  lookup, insert, sort, strip, string_eq, nat_eq, option_eq, pair_eq,
}
use tokenity.Errors.{Result, ok, err, instance_conflict, ◌>>=◌, ◌>>◌, raise_if}
use tokenity.Lifecycle.{serves}
use tokenity.Instance.{ModelInstance}
use tokenity.Registry.{Registry, get, snapshots}

-- `instance.model_revision or "unversioned"`
abbrev pub revision_of : ModelInstance → String
revision_of i = let r = or_default i.model_revision "" in if r == "" then "unversioned" else r

abbrev pub is_unhealthy : Option Bool → Bool
is_unhealthy (some false) = true
is_unhealthy _ = false

abbrev pub has_revision : Option String → ModelInstance → Bool
has_revision none i = true
has_revision (some r) i = revision_of i == r

-- None of the tests that skip an instance holds.
unfoldable pub eligible : Option String → List String → ModelInstance → Bool
eligible revision excluded i =
    not (contains i.instance_id excluded)
    && serves i.state
    && not (is_unhealthy i.health_ready)
    && has_revision revision i

pub data Verdict : Type 0 where
  skip : Verdict
  exact : ModelInstance → Verdict
  alias : ModelInstance → Verdict

-- What one round of the loop does with the instance that the registry has.
unfoldable pub judge : String → Option String → List String → Option ModelInstance → Verdict
judge key revision excluded none = skip
judge key revision excluded (some i) =
    if not (eligible revision excluded i)
    then skip
    else if i.instance_id == key
    then exact i
    else if i.requested_model_id == key
    then alias i
    else skip

pub data Scan : Type 0 where
  found : ModelInstance → Scan
  candidates : List ModelInstance → Scan

-- The loop over the snapshots, with the candidates so far.
unfoldable pub scan :
    String → Option String → List String → Registry → List ModelInstance → List ModelInstance → Scan
scan key revision excluded r acc [] = candidates acc
scan key revision excluded r acc (s ∷ rest) =
    elim (judge key revision excluded (get s.instance_id r)) [
      | skip ↦ scan key revision excluded r acc rest
      | exact i ↦ found i
      | alias i ↦ scan key revision excluded r (acc ++ i ∷ []) rest
    ]

pub record Load : Type 0 where
  pub total : ℕ
  pub queued : ℕ
  pub active : ℕ

abbrev pub load_of : ModelInstance → Load
load_of i = record {
  total = i.active_request_count + i.queued_request_count;
  queued = i.queued_request_count;
  active = i.active_request_count;
}

-- The order of tuples.
abbrev pub load_lt : Load → Load → Bool
load_lt a b =
    ltb a.total b.total
    || nat_beq a.total b.total
      && (ltb a.queued b.queued || nat_beq a.queued b.queued && ltb a.active b.active)

abbrev pub load_beq : Load → Load → Bool
load_beq a b = nat_beq a.total b.total && nat_beq a.queued b.queued && nat_beq a.active b.active

unfoldable pub lesser : Load → ModelInstance → Load
lesser m i = if load_lt (load_of i) m then load_of i else m

-- `min` over the candidates' loads
unfoldable pub minimum_load : Load → List ModelInstance → Load
minimum_load m [] = m
minimum_load m (i ∷ is) = minimum_load (lesser m i) is

-- The candidates with the least load, in the order of their ids.
unfoldable pub least_loaded : ModelInstance → List ModelInstance → List ModelInstance
least_loaded c cs =
    sort (λ i. i.instance_id)
      (keep (λ i. load_beq (load_of i) (minimum_load (load_of c) cs)) (c ∷ cs))

abbrev pub Cursor : Type 0
Cursor = Dict (String × Option String) ℕ

-- `self._cursor.get(cursor_key, 0) % len(candidates)`
abbrev pub cursor_index : String → Option String → Cursor → ℕ → ℕ
cursor_index key revision cursor n = or_default (lookup (key, revision) cursor) 0 % n

-- The choice among the candidates, and the cursor that it leaves.
unfoldable pub choose :
    String → Option String → Cursor → List ModelInstance → Result (Cursor × ModelInstance)
choose key revision cursor [] = err instance_conflict
choose key revision cursor (c ∷ cs) =
    let best = least_loaded c cs in
    let index = cursor_index key revision cursor (length best) in
    ok (insert (key, revision) ((index + 1) % length best) cursor, get_or best index c)

abbrev pub conclude : String → Option String → Cursor → Scan → Result (Cursor × ModelInstance)
conclude key revision cursor (found i) = ok (cursor, i)
conclude key revision cursor (candidates cs) = choose key revision cursor cs

-- `resolve(model_or_instance_id, revision, exclude_instance_ids)`
unfoldable pub resolve :
    String → Option String → List String → Registry → Cursor → Result (Cursor × ModelInstance)
resolve name revision excluded r cursor = do
  let key = strip name
  raise_if (key == "") instance_conflict
  conclude key revision cursor (scan key revision excluded r [] (snapshots r))
