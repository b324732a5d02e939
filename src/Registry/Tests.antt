-- ===== src/Registry/Tests.antt =====
-- Registering instances.
use tokenity.Common.{◌≡◌, ◌≢◌, refl, [], ◌∷◌, some, String, arith, eq_iff, lookup}
use tokenity.Errors.{err, instance_conflict}
use tokenity.Instance.Samples.{idle}
use tokenity.Registry.{Registry, create}
use tokenity.Registry.Ownership.{IsKeyed, create_conflict}

IsKeyed-nil : IsKeyed []
unfolding lookup
IsKeyed-nil = record { at_key = λ k i e. cc }

abbrev one : Registry
one = ("i-1", idle) ∷ []

not_empty : ◌≢◌ {A = String} "i-1" ""
not_empty = ground (arith, eq_iff "i-1" "")

op_not_empty : ◌≢◌ {A = String} "op-1" ""
op_not_empty = ground (arith, eq_iff "op-1" "")

create_conflict_example : create (some "i-1") (some "op-2") "u" "v" idle one ≡ err instance_conflict
unfolding lookup
create_conflict_example =
    create_conflict "i-1" "op-2" "u" "v" idle idle one not_empty (ground (arith, eq_iff "op-2" ""))
      refl (ground (arith, eq_iff "op-1" "op-2"))
