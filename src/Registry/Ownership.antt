-- ===== src/Registry/Ownership.antt =====
-- Every instance stands under its own id, and belongs to the operation that created it.
use tokenity.Common.{
  ℕ, ◌≡◌, ◌≢◌, ◌⊎◌, is_neg, ◌∙◌, refl, inl, inr, Bool-cases, Option-cases, Bool, false, ◌==◌, List,
  [], ◌∷◌, Option, none, some, String, lookup, insert, erase, lookup-insert, lookup-erase, arith,
  string_eq, eq_iff,
}
use tokenity.Errors.{Result, ok, err, value_error, instance_conflict, ◌>>=◌}
use tokenity.Ratio.{within}
use tokenity.Instance.{
  ModelInstance, post_init, acquire_request_lease, release_request_lease, enqueue_request,
  dequeue_request,
}
use tokenity.Registry.{
  Registry, given_or_fresh, create, create_at, remove, on_instance, acquire, release, enqueue,
  dequeue,
}

pub data Call : Type 0 where
  creates : Option String → Option String → String → String → ModelInstance → Call
  removes : String → Call
  acquires : ℕ → String → Call
  releases : ℕ → String → Call
  enqueues : ℕ → String → Call
  dequeues : ℕ → String → Call

abbrev pub after {ℓ} : {A : Type ℓ} → Registry → Result (Registry × A) → Registry
after r (ok (t, a)) = t
after r (err e) = r

abbrev pub created : Registry → Result (Registry × ModelInstance × Bool) → Registry
created r (ok (t, i, fresh)) = t
created r (err e) = r

unfoldable pub step : Registry → Call → Registry
step r (creates id operation fresh_id fresh_operation values) =
    created r (create id operation fresh_id fresh_operation values r)
step r (removes id) = (remove id r).0
step r (acquires now id) = after r (acquire now id r)
step r (releases now id) = after r (release now id r)
step r (enqueues now id) = after r (enqueue now id r)
step r (dequeues now id) = after r (dequeue now id r)

unfoldable pub run : Registry → List Call → Registry
run r [] = r
run r (c ∷ cs) = run (step r c) cs

pub record IsKeyed (r : Registry) : Type 0 where
  pub at_key : (k : String) (i : ModelInstance) → lookup k r ≡ some i → i.instance_id ≡ k

abbrev KeepsId : (ModelInstance → Result (ModelInstance × ℕ)) → Type 0
KeepsId method =
    (s t : ModelInstance) (n : ℕ) → method s ≡ ok (t, n) → t.instance_id ≡ s.instance_id

insert-IsKeyed :
    (id : String) (i : ModelInstance) (r : Registry)
    → i.instance_id ≡ id
    → IsKeyed r
    → IsKeyed (insert id i r)
insert-IsKeyed id i r own h = record {
  at_key = λ k j e. ground (arith, lookup-insert id k i r, eq_iff id k, h.at_key k j);
}

erase-IsKeyed : (id : String) (r : Registry) → IsKeyed r → IsKeyed (erase id r)
erase-IsKeyed id r h = record {
  at_key = λ k j e. ground (arith, lookup-erase id k r, h.at_key k j);
}

-- What `on_instance` does with the result of the method.
abbrev stored : String → Registry → Result (ModelInstance × ℕ) → Result (Registry × ModelInstance)
stored id r result = do (changed, _) ← result; ok (insert id changed r, changed)

stored-IsKeyed :
    (id : String) (r : Registry) (result : Result (ModelInstance × ℕ))
    → ((t : ModelInstance) (n : ℕ) → result ≡ ok (t, n) → t.instance_id ≡ id)
    → IsKeyed r
    → IsKeyed (after r (stored id r result))
stored-IsKeyed id r (ok (t, n)) own h = insert-IsKeyed id t r (own t n refl) h
stored-IsKeyed id r (err e) own h = h

on_instance-IsKeyed :
    (method : ModelInstance → Result (ModelInstance × ℕ)) (id : String) (r : Registry)
    → KeepsId method
    → IsKeyed r
    → IsKeyed (after r (on_instance method id r))
unfolding on_instance
on_instance-IsKeyed method id r keeps h = elim (Option-cases (lookup id r)) [
  | inl e ↦ rw (e, on_instance) h
  | inr (s, e) ↦
      rw (e, on_instance)
        (stored-IsKeyed id r (method s) (λ t n m. keeps s t n m ∙ h.at_key id s e) h)
]

post_init_cases : (s : ModelInstance) → (post_init s ≡ ok s) ⊎ (post_init s ≡ err value_error)
unfolding post_init
post_init_cases s = elim (Bool-cases (is_neg s.memory_reservation_bytes)) [
  | inl e ↦ inr (rw e)
  | inr e ↦ elim (Bool-cases (within s.memory_headroom_ratio 400000)) [
    | inl e' ↦ inl (rw (e, e'))
    | inr e' ↦ inr (rw (e, e'))
  ]
]

create-IsKeyed :
    (id operation : String) (values : ModelInstance) (r : Registry) (found : Option ModelInstance)
    → IsKeyed r
    → IsKeyed (created r (create_at id operation values r found))
unfolding create_at
create-IsKeyed id operation values r (some existing) h =
    elim (Bool-cases (existing.operation_id == operation)) [ inl e ↦ rw e h | inr e ↦ rw e h ]
create-IsKeyed id operation values r none h =
    let s : ModelInstance = record values { instance_id = id; operation_id = operation } in
    elim (post_init_cases s) [ inl e ↦ rw e (insert-IsKeyed id s r refl h) | inr e ↦ rw e h ]

acquire-KeepsId : (now : ℕ) → KeepsId (acquire_request_lease now)
unfolding acquire_request_lease
acquire-KeepsId now s t n h = ground arith

release-KeepsId : (now : ℕ) → KeepsId (release_request_lease now)
unfolding release_request_lease
release-KeepsId now s t n h = ground arith

enqueue-KeepsId : (now : ℕ) → KeepsId (enqueue_request now)
unfolding enqueue_request
enqueue-KeepsId now s t n h = ground arith

dequeue-KeepsId : (now : ℕ) → KeepsId (dequeue_request now)
unfolding dequeue_request
dequeue-KeepsId now s t n h = ground arith

-- Every call keeps each instance under its own id.
step-IsKeyed : (r : Registry) (c : Call) → IsKeyed r → IsKeyed (step r c)
unfolding step create remove acquire release enqueue dequeue
step-IsKeyed r (creates id operation fresh_id fresh_operation values) h =
    create-IsKeyed (given_or_fresh id fresh_id) (given_or_fresh operation fresh_operation) values r
      (lookup (given_or_fresh id fresh_id) r) h
step-IsKeyed r (removes id) h = erase-IsKeyed id r h
step-IsKeyed r (acquires now id) h =
    on_instance-IsKeyed (acquire_request_lease now) id r (acquire-KeepsId now) h
step-IsKeyed r (releases now id) h =
    on_instance-IsKeyed (release_request_lease now) id r (release-KeepsId now) h
step-IsKeyed r (enqueues now id) h =
    on_instance-IsKeyed (enqueue_request now) id r (enqueue-KeepsId now) h
step-IsKeyed r (dequeues now id) h =
    on_instance-IsKeyed (dequeue_request now) id r (dequeue-KeepsId now) h

-- Through any calls, an instance that is found under an id has that id.
pub run-IsKeyed : (r : Registry) (cs : List Call) → IsKeyed r → IsKeyed (run r cs)
unfolding run
run-IsKeyed r [] h = h
run-IsKeyed r (c ∷ cs) h = run-IsKeyed (step r c) cs (step-IsKeyed r c h)

create_at_found :
    (id operation : String) (values i : ModelInstance) (r t : Registry) (new : Bool)
    (found : Option ModelInstance)
    → lookup id r ≡ found
    → create_at id operation values r found ≡ ok (t, i, new)
    → (lookup id t ≡ some i) × (i.operation_id ≡ operation)
unfolding create_at
create_at_found id operation values i r t new (some existing) e h =
    ground (arith, eq_iff existing.operation_id operation)
create_at_found id operation values i r t new none e h =
    let s : ModelInstance = record values { instance_id = id; operation_id = operation } in
    ground (arith, post_init_cases s, lookup-insert id id s r, eq_iff id id)

-- Creating an instance once more with the same id and operation, whatever the other values are,
-- returns the first one as not new and changes nothing.
pub create-create :
    (id operation fresh_id fresh_operation fresh_id' fresh_operation' : String)
    (values others i : ModelInstance) (r t : Registry) (new : Bool)
    → id ≢ ""
    → operation ≢ ""
    → create (some id) (some operation) fresh_id fresh_operation values r ≡ ok (t, i, new)
    → create (some id) (some operation) fresh_id' fresh_operation' others t ≡ ok (t, i, false)
unfolding create create_at
create-create id operation fresh_id fresh_operation fresh_id' fresh_operation' values others i r t
      new named tagged h =
    let again =
      create_at_found id operation values i r t new (lookup id r) refl
        (ground (arith, eq_iff id "", eq_iff operation "")) in
    ground (arith, eq_iff id "", eq_iff operation "", eq_iff i.operation_id operation, again)

-- An id that is taken is not given to another operation.
pub create_conflict :
    (id operation fresh_id fresh_operation : String) (values i : ModelInstance) (r : Registry)
    → id ≢ ""
    → operation ≢ ""
    → lookup id r ≡ some i
    → i.operation_id ≢ operation
    → create (some id) (some operation) fresh_id fresh_operation values r ≡ err instance_conflict
unfolding create
create_conflict id operation fresh_id fresh_operation values i r named tagged found other =
    ground (arith, eq_iff id "", eq_iff operation "", eq_iff i.operation_id operation)
