-- ===== src/Errors.antt =====
-- The exceptions of tokenity/control/instances.py, tokenity/mlx/hostfile.py and the native prediction
-- of tokenity/inference/native_mtp, each by its class, and Python's own that the code raises or runs
-- into. Messages are not modelled. A function that may raise returns a `Result`.
use mathlib.Core.Path.{◌≡◌, refl}
use mathlib.Core.Logic.{◌⊎◌, inl, inr}
use mathlib.Core.Bool.{Bool, true, false}

pub data Error : Type 0 where
  value_error : Error
  overflow_error : Error
  invalid_lifecycle_transition : Error
  stale_instance_update : Error
  instance_conflict : Error
  resource_admission_error : Error
  generation_queue_full : Error
  generation_slot_timeout : Error
  generation_slot_cancelled : Error
  hostfile_error : Error
  index_error : Error
  runtime_error : Error
  attribute_error : Error
  native_mtp_startup_error : Error

pub data Result {ℓ} (A : Type ℓ) : Type ℓ where
  ok : A → Result A
  err : Error → Result A

-- `if test: raise e`
abbrev pub raise_if : Bool → Error → Result (Unit {0})
raise_if true e = err e
raise_if false e = ok tt

infixl 5 ◌>>=◌ ◌>>◌
-- What follows a statement runs unless that raised.
abbrev pub ◌>>=◌ {ℓ κ} : {A : Type ℓ} {B : Type κ} → Result A → (A → Result B) → Result B
err raised >>= continue = err raised
ok value >>= continue = continue value

abbrev pub ◌>>◌ {ℓ} : {B : Type ℓ} → Result (Unit {0}) → Result B → Result B
first >> second = first >>= λ _. second

-- The value of a result, or another one in its place.
abbrev pub from_ok {ℓ} : {A : Type ℓ} → A → Result A → A
from_ok d (ok a) = a
from_ok d (err e) = d

-- A result that is no error has a value.
pub ok_of_not_err {ℓ} :
    {A : Type ℓ} (m : Result A) → ((e : Error) → m ≡ err e → ⊥) → (a : A) × (m ≡ ok a)
ok_of_not_err (ok a) h = (a, refl)
ok_of_not_err (err e) h = absurd (h e refl)

pub Result-cases {ℓ} :
    {A : Type ℓ} (m : Result A) → ((e : Error) × (m ≡ err e)) ⊎ ((a : A) × (m ≡ ok a))
Result-cases (ok a) = inr (a, refl)
Result-cases (err e) = inl (e, refl)
