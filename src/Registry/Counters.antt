-- ===== src/Registry/Counters.antt =====
-- What queueing and dequeueing a request write to the registry.
use tokenity.Common.{
  ℕ, ◌+◌, ◌<◌, ◌≡◌, Option, none, some, String, lookup, insert, or_default, Option-cases, inl, inr,
  arith, string_eq,
}
use tokenity.Errors.{ok, from_ok, ok_of_not_err}
use tokenity.Instance.{ModelInstance, enqueue_request, dequeue_request}
use tokenity.Registry.{Registry, enqueue, dequeue}

-- The number of queued requests of what is registered under an id.
abbrev pub queued_at : Option ModelInstance → ℕ
queued_at none = 0
queued_at (some i) = i.queued_request_count

enqueue_request_count :
    (now n : ℕ) (s t : ModelInstance)
    → enqueue_request now s ≡ ok (t, n)
    → t.queued_request_count ≡ s.queued_request_count + 1
unfolding enqueue_request
enqueue_request_count now n s t h = ground arith

dequeue_request_count :
    (now n : ℕ) (s t : ModelInstance)
    → dequeue_request now s ≡ ok (t, n)
    → s.queued_request_count ≡ t.queued_request_count + 1
unfolding dequeue_request
dequeue_request_count now n s t h = ground arith

dequeue_request_total :
    (now : ℕ) (s : ModelInstance)
    → 0 < s.queued_request_count
    → (p : ModelInstance × ℕ) × (dequeue_request now s ≡ ok p)
unfolding dequeue_request
dequeue_request_total now s h = ok_of_not_err (dequeue_request now s) (λ e d. ground arith)

pub enqueue-ok :
    (now : ℕ) (id : String) (r t : Registry) (i : ModelInstance)
    → enqueue now id r ≡ ok (t, i)
    → (t ≡ insert id i r) × (i.queued_request_count ≡ queued_at (lookup id r) + 1)
unfolding enqueue
enqueue-ok now id r t i h =
    ground
      (arith, enqueue_request_count now (from_ok (here, 0) (enqueue_request now here)).1 here i)
  where
    here : ModelInstance
    here = or_default (lookup id r) i

pub dequeue-ok :
    (now : ℕ) (id : String) (r t : Registry) (i : ModelInstance)
    → dequeue now id r ≡ ok (t, i)
    → (t ≡ insert id i r) × (queued_at (lookup id r) ≡ i.queued_request_count + 1)
unfolding dequeue
dequeue-ok now id r t i h =
    ground
      (arith, dequeue_request_count now (from_ok (here, 0) (dequeue_request now here)).1 here i)
  where
    here : ModelInstance
    here = or_default (lookup id r) i

pub dequeue_total :
    (now : ℕ) (id : String) (r : Registry)
    → 0 < queued_at (lookup id r)
    → (p : Registry × ModelInstance) × (dequeue now id r ≡ ok p)
unfolding dequeue
dequeue_total now id r h = elim (Option-cases (lookup id r)) [
  | inl e ↦ absurd (ground arith)
  | inr (s, e) ↦
      (let (p, q) = dequeue_request_total now s (ground arith) in
        ((insert id p.0 r, p.0), ground arith))
]
