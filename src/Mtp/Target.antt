-- ===== src/Mtp/Target.antt =====
-- What tokenity/inference/native_mtp/generation.py decodes with, as the argument `Target`, and what it
-- counts: a model, its sampler and the prompt cache. A draw of random numbers is a step of a state.
use tokenity.Common.{
  ℕ, ◌+◌, Bool, true, false, if◌then◌else◌, leb, List, [], ◌∷◌, Option, none, some,
}

pub record Target : Type 1 where
  pub Cache : Type 0
  pub Logits : Type 0
  pub Hidden : Type 0
  pub Head : Type 0
  pub Rng : Type 0
  pub Matcher : Type 0
  -- the cache after one more token, and what the model gives for the last token of a cache
  pub extend : Cache → ℕ → Cache
  pub logits : Cache → Logits
  pub hidden : Cache → Hidden
  -- one pass over two tokens, with the undo armed, and its two rows
  pub verify : Cache → ℕ → ℕ → Cache
  pub first_row : Cache → ℕ → ℕ → Logits × Hidden
  pub second_row : Cache → ℕ → ℕ → Logits × Hidden
  -- `restore_after_rejection` and `clear_rollback`
  pub restore : Cache → Cache × Bool
  pub clear : Cache → Cache
  pub new_head : Head
  pub head : Hidden → ℕ → Head → Logits × Head
  -- the request's logits processors; the first part says whether there are any
  pub has_processors : Bool
  pub process : List ℕ → Logits → Logits
  pub normalized : Logits → Logits
  pub filtered : Logits → Logits
  pub is_greedy : Bool
  pub argmax : Logits → ℕ
  pub sample : Rng → Logits → ℕ × Rng
  -- is the probability of acceptance at least 1, or above a uniform draw?
  pub accepts : Rng → Logits → Logits → ℕ → Bool × Rng
  pub residual : Rng → Logits → Logits → ℕ × Rng
  -- the state machine of stop sequences, and whether it is at an end
  pub match : Matcher → ℕ → Matcher × Bool

pub data Source : Type 0 where
  init draft bonus verified : Source

pub data FinishReason : Type 0 where
  length stop : FinishReason

-- What `telemetry` counts.
pub record Telemetry : Type 0 where
  pub proposed_tokens : ℕ
  pub accepted_tokens : ℕ
  pub verify_cycles : ℕ
  pub emitted_verify_tokens : ℕ

-- `_record_proposal`
unfoldable pub record_proposal : Bool → Telemetry → Telemetry
record_proposal accepted t = record t {
  proposed_tokens = t.proposed_tokens + 1;
  accepted_tokens = t.accepted_tokens + (if accepted then 1 else 0);
  verify_cycles = t.verify_cycles + 1;
}

abbrev pub is_verify_source : Source → Bool
is_verify_source init = false
is_verify_source _ = true

-- The counting in `_mtp_next`.
unfoldable pub record_emitted : Source → Telemetry → Telemetry
record_emitted source t =
    if is_verify_source source
    then record t { emitted_verify_tokens = t.emitted_verify_tokens + 1 }
    else t

-- `buffer._size = max(0, buffer._size - 1)`
abbrev pub drop_last : List ℕ → List ℕ
drop_last [] = []
drop_last (x ∷ []) = []
drop_last (x ∷ y ∷ ys) = x ∷ drop_last (y ∷ ys)

-- A stop sequence comes before the limit.
unfoldable pub finish_reason_of : ℕ → ℕ → Bool → Option FinishReason
finish_reason_of count limit stopped =
    if stopped then some stop else if leb limit count then some length else none
