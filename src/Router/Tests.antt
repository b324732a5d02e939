-- ===== src/Router/Tests.antt =====
-- Three instances of one alias, of which one is loaded.
use tokenity.Common.{
  ◌+◌, ◌%◌, ◌≡◌, ◌≢◌, ◌⊎◌, refl, false, [], ◌∷◌, none, arith, eq_iff, lookup, insert, strip, sort,
  get_or, length, string_eq,
}
use tokenity.Errors.{ok, err, instance_conflict}
use tokenity.Lifecycle.{ready, busy}
use tokenity.Instance.{ModelInstance}
use tokenity.Instance.Samples.{sample}
use tokenity.Registry.{Registry, snapshots}
use tokenity.Registry.Ownership.{IsKeyed}
use tokenity.Router.{
  resolve, eligible, scan, judge, choose, candidates, least_loaded, minimum_load, load_lt, load_of,
  lesser,
}
use tokenity.Registry.{get}
use tokenity.Router.Balance.{resolve-least}
use tokenity.Router.Turns.{turns, resolve-turns, index}

abbrev a : ModelInstance
a = sample "a" "qwen" ready

abbrev b : ModelInstance
b = record (sample "b" "qwen" busy) { active_request_count = 2 }

abbrev c : ModelInstance
c = sample "c" "qwen" ready

abbrev three : Registry
three = ("c", c) ∷ ("b", b) ∷ ("a", a) ∷ []

three-IsKeyed : IsKeyed three
unfolding lookup
three-IsKeyed = record {
  at_key = λ k i e. ground (arith, eq_iff "c" k, eq_iff "b" k, eq_iff "a" k);
}

first_a : resolve " qwen " none [] three [] ≡ ok ((("qwen", none), 1) ∷ [], a)
unfolding resolve scan judge choose least_loaded minimum_load lesser eligible get snapshots strip
    sort lookup insert
first_a = refl

next_c : resolve "qwen" none [] three ((("qwen", none), 1) ∷ []) ≡ ok ((("qwen", none), 0) ∷ [], c)
unfolding resolve scan judge choose least_loaded minimum_load lesser eligible get snapshots strip
    sort lookup insert
next_c = refl

resolve-least_example : (a.instance_id ≡ strip " qwen ") ⊎ (load_lt (load_of b) (load_of a) ≡ false)
unfolding lookup eligible strip
resolve-least_example =
    resolve-least " qwen " none [] three [] ((("qwen", none), 1) ∷ []) a b "b" three-IsKeyed first_a
      refl refl (ground (arith, eq_iff "b" "qwen")) refl

nothing_else : resolve "gpt" none [] three [] ≡ err instance_conflict
unfolding resolve scan judge choose least_loaded minimum_load lesser eligible get snapshots strip
    sort lookup insert
nothing_else = refl

two_found : scan (strip "qwen") none [] three [] (snapshots three) ≡ candidates (a ∷ b ∷ c ∷ [])
unfolding scan judge eligible get snapshots strip sort lookup insert
two_found = refl

qwen_named : strip "qwen" ≢ ""
unfolding strip
qwen_named = ground (arith, eq_iff "qwen" "")

resolve-turns_example :
    resolve "qwen" none [] three (turns 3 "qwen" none [] three [])
    ≡ ok (
      turns 4 "qwen" none [] three [],
      get_or
          (least_loaded a (b ∷ c ∷ []))
          ((index "qwen" none [] three a (b ∷ c ∷ []) qwen_named two_found [] + 3)
            % length (least_loaded a (b ∷ c ∷ [])))
          a,
    )
resolve-turns_example = resolve-turns "qwen" none [] three a (b ∷ c ∷ []) qwen_named two_found 3 []
