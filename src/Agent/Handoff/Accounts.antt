-- ===== src/Agent/Handoff/Accounts.antt =====
-- Where the lease of `_acquire_generation_slot` of tokenity/node_agent/agent.py is.
use tokenity.Common.{ℕ, ◌+◌, ◌≤◌, Bool, true, false, ◌||◌, not, if◌then◌else◌, ◌≡◌, refl, arith}
use tokenity.Agent.Handoff.{
  Worker, acquiring, holding, published, refused, Request, received, returned, cancelling, raised,
  Handoff, initial, publish, clean_up, Step, acquires, is_refused, publishes, receives, fails,
  cancels, cleans_up, returns, Reach, here, next,
}

-- Has the worker ended?
abbrev pub worker_ended : Worker → Bool
worker_ended published = true
worker_ended refused = true
worker_ended _ = false

abbrev pub has_returned : Request → Bool
has_returned returned = true
has_returned _ = false

abbrev pub request_ended : Request → Bool
request_ended returned = true
request_ended raised = true
request_ended _ = false

-- What the two positions say of the event and of the holder, and how many leases are taken and not
-- given back.
abbrev is_cancelled : Request → Bool
is_cancelled cancelling = true
is_cancelled raised = true
is_cancelled _ = false

abbrev in_holder : Worker → Request → Bool
in_holder published returned = false
in_holder published raised = false
in_holder published _ = true
in_holder _ _ = false

abbrev outstanding : Worker → Request → ℕ
outstanding holding _ = 1
outstanding published raised = 0
outstanding published _ = 1
outstanding _ _ = 0

abbrev is_published : Worker → Bool
is_published published = true
is_published _ = false

abbrev has_read : Request → Bool
has_read received = true
has_read returned = true
has_read _ = false

abbrev most : Worker → ℕ
most acquiring = 0
most _ = 1

-- The event and the holder are as the two positions say, only a published lease is read, and at most
-- one lease is taken, which is given back or outstanding.
record IsAccounted (s : Handoff) : Type 0 where
  event : s.cancel_event ≡ is_cancelled s.request
  holds : s.holder ≡ in_holder s.worker s.request
  balance : s.acquired ≡ s.released + outstanding s.worker s.request
  agreed : (is_published s.worker || not (has_read s.request)) ≡ true
  bounded : s.acquired ≤ most s.worker

initial-IsAccounted : IsAccounted initial
initial-IsAccounted = record {
  event = refl;
  holds = refl;
  balance = refl;
  agreed = refl;
  bounded = omega arith;
}

Step-IsAccounted : {s t : Handoff} → Step s t → IsAccounted s → IsAccounted t
unfolding publish clean_up
Step-IsAccounted (acquires s h) i = record {
  event = ground arith;
  holds = ground arith;
  balance = ground arith;
  agreed = ground arith;
  bounded = ground arith;
}
Step-IsAccounted (is_refused s h) i = record {
  event = ground arith;
  holds = ground arith;
  balance = ground arith;
  agreed = ground arith;
  bounded = ground arith;
}
Step-IsAccounted (publishes s h) i = record {
  event = ground arith;
  holds = ground arith;
  balance = ground arith;
  agreed = ground arith;
  bounded = ground arith;
}
Step-IsAccounted (receives s h p) i = record {
  event = ground arith;
  holds = ground arith;
  balance = ground arith;
  agreed = ground arith;
  bounded = ground arith;
}
Step-IsAccounted (fails s h) i = record {
  event = ground arith;
  holds = ground arith;
  balance = ground arith;
  agreed = ground arith;
  bounded = ground arith;
}
Step-IsAccounted (cancels s h) i = record {
  event = ground arith;
  holds = ground arith;
  balance = ground arith;
  agreed = ground arith;
  bounded = ground arith;
}
Step-IsAccounted (cleans_up s h) i = record {
  event = ground arith;
  holds = ground arith;
  balance = ground arith;
  agreed = ground arith;
  bounded = ground arith;
}
Step-IsAccounted (returns s h) i = record {
  event = ground arith;
  holds = ground arith;
  balance = ground arith;
  agreed = ground arith;
  bounded = ground arith;
}

Reach-IsAccounted : {s : Handoff} → Reach initial s → IsAccounted s
Reach-IsAccounted here = initial-IsAccounted
Reach-IsAccounted (next r st) = Step-IsAccounted st (Reach-IsAccounted r)

-- In every run in which the worker and the request have ended: nothing is left in the holder, at most
-- one lease was taken, and it was given back, once, unless the request returned it, which is when
-- there is one that was not given back.
pub handed_over :
    {s : Handoff}
    → Reach initial s
    → worker_ended s.worker ≡ true
    → request_ended s.request ≡ true
    → (s.holder ≡ false)
      × (s.acquired ≤ 1)
      × (s.acquired ≡ s.released + (if has_returned s.request then 1 else 0))
handed_over r w e = let i = Reach-IsAccounted r in (ground arith, ground arith, ground arith)
