-- ===== src/Agent/Handoff.antt =====
-- `_acquire_generation_slot` of tokenity/node_agent/agent.py: a lease that a worker thread takes for a
-- request, which may give up meanwhile.
--
-- A step is what one of the two does without the other one in between: what runs under `holder_lock`
-- is one step, and so is each write to `cancel_event`.
pub mod Accounts
mod Tests
use tokenity.Common.{ℕ, ◌+◌, Bool, true, false, if◌then◌else◌, ◌≡◌}

-- The worker: in `scheduler.acquire`; with a lease, not yet under the lock; done with the lease as its
-- result; done with an exception.
pub data Worker : Type 0 where
  acquiring holding published refused : Worker

-- The request: waiting for the worker; with its result read; returned the lease; in its `except`
-- clause; there with `cancel_event` set; done with an exception.
pub data Request : Type 0 where
  waiting received returned failing cancelling raised : Request

pub record Handoff : Type 0 where
  pub worker : Worker
  pub request : Request
  pub cancel_event : Bool
  pub holder : Bool
  pub acquired : ℕ
  pub released : ℕ

abbrev pub initial : Handoff
initial = record {
  worker = acquiring;
  request = waiting;
  cancel_event = false;
  holder = false;
  acquired = 0;
  released = 0;
}

-- The worker's lock: it gives the lease back if the request has given up, and else shows it.
unfoldable pub publish : Handoff → Handoff
publish s =
    if s.cancel_event
    then record s { worker = refused; released = s.released + 1 }
    else record s { worker = published; holder = true }

-- The lock of the `except` clause: `holder.pop`, and `release` of what was there.
unfoldable pub clean_up : Handoff → Handoff
clean_up s = record s {
  request = raised;
  holder = false;
  released = s.released + (if s.holder then 1 else 0);
}

-- The worker gets a lease or an exception from the scheduler, and publishes; the request reads a
-- result, or fails at any time before, of itself or with the worker's exception, and returns or
-- cleans up. The rounds of its loop in which the worker is not done yet change nothing: waiting is one
-- position, at which the request may read, or fail where its client has left or it is cancelled.
pub data Step : Handoff → Handoff → Type 0 where
  acquires :
      (s : Handoff)
      → s.worker ≡ acquiring
      → Step s (record s { worker = holding; acquired = s.acquired + 1 })
  is_refused : (s : Handoff) → s.worker ≡ acquiring → Step s (record s { worker = refused })
  publishes : (s : Handoff) → s.worker ≡ holding → Step s (publish s)
  receives :
      (s : Handoff)
      → s.request ≡ waiting
      → s.worker ≡ published
      → Step s (record s { request = received })
  fails : (s : Handoff) → s.request ≡ waiting → Step s (record s { request = failing })
  cancels :
      (s : Handoff)
      → s.request ≡ failing
      → Step s (record s { request = cancelling; cancel_event = true })
  cleans_up : (s : Handoff) → s.request ≡ cancelling → Step s (clean_up s)
  returns :
      (s : Handoff)
      → s.request ≡ received
      → Step s (record s { request = returned; holder = false })

pub data Reach (s : Handoff) : Handoff → Type 0 where
  here : Reach s s
  next : {t u : Handoff} → Reach s t → Step t u → Reach s u
