-- ===== src/Mtp/Decode.antt =====
-- tokenity/inference/native_mtp/generation.py: decoding one sequence by drafting one token and
-- verifying it together with the token before it.
--
-- The model, its sampler and the prompt cache are the argument `Target`; Cache and its children
-- model the cache's operations. The batch has one sequence, as `_eligible` demands.
pub mod Plain
pub mod Greedy
pub mod Emit
pub mod Refine
pub mod Counts
use tokenity.Common.{
  ℕ, zero, suc, ◌+◌, ◌-◌, ◌≡◌, Bool, true, false, if◌then◌else◌, ◌&&◌, ◌||◌, not, leb, ltb, nat_beq,
  List, [], ◌∷◌, ◌++◌, Option, none, some,
}
use tokenity.Mtp.Target.{
  Target, Source, init, draft, bonus, verified, FinishReason, length, stop, Telemetry,
  record_proposal, is_verify_source, record_emitted, drop_last, finish_reason_of,
}
use tokenity.Errors.{Result, ok, err, runtime_error, ◌>>=◌, ◌>>◌, raise_if}

module _ (T : Target) where
  open T use {Cache, Logits, Hidden, Head, Rng, Matcher}

  -- The batch of one sequence.
  pub record Batch : Type 0 where
    pub prompt_cache : Cache
    pub token_context : List ℕ
    pub tokens : List ℕ
    pub num_tokens : ℕ
    pub max_tokens : ℕ
    pub matcher_state : Matcher
    pub rng : Rng

  -- A token to emit; `cached` says whether the prompt cache has it already.
  pub record Queued : Type 0 where
    pub token : ℕ
    pub logprobs : Logits
    pub source : Source
    pub cached : Bool

  -- `_MTPState`
  pub record MtpState : Type 0 where
    pub telemetry : Telemetry
    pub queue : List Queued
    pub mtp_cache : Head
    pub next_main : ℕ
    pub draft_id : ℕ
    pub draft_logprobs : Logits
    pub draft_accept_logprobs : Logits
    pub last_uncached_token : Option ℕ

  -- `_apply_processors`, and the context that they read
  abbrev pub apply_processors : List ℕ → Logits → Logits
  apply_processors previous l = if T.has_processors then T.process previous l else l

  abbrev pub noted : List ℕ → ℕ → List ℕ
  noted context t = if T.has_processors then context ++ t ∷ [] else context

  abbrev pub unnoted : List ℕ → List ℕ
  unnoted context = if T.has_processors then drop_last context else context

  -- `_step_head`: the draft that follows a token, with its log-probabilities
  unfoldable pub step_head : Hidden → ℕ → List ℕ → Batch → MtpState → Batch × MtpState
  step_head hidden next_main previous b s =
      let out = T.head hidden next_main s.mtp_cache in
      let logprobs = T.normalized (apply_processors (previous ++ next_main ∷ []) out.0) in
      let drawn = T.sample b.rng logprobs in
      (
        record b { rng = drawn.1 },
        record s {
          mtp_cache = out.1;
          next_main = next_main;
          draft_id = drawn.0;
          draft_logprobs = logprobs;
          draft_accept_logprobs = T.filtered logprobs;
        },
      )

  -- `_post_init`, from the token that plain decoding has drawn last and not fed yet
  unfoldable pub post_init : ℕ → Logits → Telemetry → Batch → Batch × MtpState
  unfolding step_head
  post_init main_token main_logprobs telemetry b =
      let previous = noted b.token_context main_token in
      let cache = T.extend b.prompt_cache main_token in
      let next_logprobs = T.normalized (apply_processors previous (T.logits cache)) in
      let drawn = T.sample b.rng next_logprobs in
      let s : MtpState = record {
        telemetry = telemetry;
        queue =
            record { token = main_token; logprobs = main_logprobs; source = init; cached = true }
            ∷ record { token = drawn.0; logprobs = next_logprobs; source = init; cached = false }
            ∷ [];
        mtp_cache = T.new_head;
        next_main = drawn.0;
        draft_id = 0;
        draft_logprobs = next_logprobs;
        draft_accept_logprobs = next_logprobs;
        last_uncached_token = none;
      } in
      step_head (T.hidden cache) drawn.0 previous
        (record b { prompt_cache = cache; token_context = previous; rng = drawn.1 }) s

  -- Does the verification accept the draft?
  unfoldable pub is_accepted : Rng → Logits → MtpState → Bool × Rng
  is_accepted rng verify_logprobs s =
      if T.is_greedy
      then (nat_beq (T.argmax verify_logprobs) s.draft_id, rng)
      else T.accepts rng (T.filtered verify_logprobs) s.draft_accept_logprobs s.draft_id

  -- The token that takes the place of a rejected draft.
  unfoldable pub replacement : Rng → Logits → MtpState → ℕ × Rng
  replacement rng verify_logprobs s =
      if T.is_greedy
      then (T.argmax verify_logprobs, rng)
      else T.residual rng (T.filtered verify_logprobs) s.draft_accept_logprobs

  -- The branch of an accepted draft; `previous` is the context with the draft.
  unfoldable pub accept : Hidden → ℕ → Logits → List ℕ → Batch → MtpState → Batch × MtpState
  accept hidden_draft bonus_token bonus_logprobs previous b s =
      let q =
        s.queue
        ++ record { token = s.draft_id; logprobs = s.draft_logprobs; source = draft; cached = true }
          ∷ record {
            token = bonus_token;
            logprobs = bonus_logprobs;
            source = bonus;
            cached = false;
          }
          ∷ [] in
      step_head hidden_draft bonus_token previous
        (record b { prompt_cache = T.clear b.prompt_cache }) (record s { queue = q })

  -- The branch of a rejected draft; `previous` is the context without it.
  unfoldable pub reject : Hidden → Logits → List ℕ → Batch → MtpState → Result (Batch × MtpState)
  reject hidden_confirmed verify_logprobs previous b s =
      let restored = T.restore b.prompt_cache in
      let emit = replacement b.rng verify_logprobs s in
      let q =
        s.queue
        ++ record { token = emit.0; logprobs = verify_logprobs; source = verified; cached = false }
          ∷ [] in
      if not restored.1
      then err runtime_error
      else ok (
          step_head hidden_confirmed emit.0 previous
            (record b {
              prompt_cache = restored.0;
              token_context = unnoted b.token_context;
              rng = emit.1;
            })
            (record s { queue = q }))

  -- `_verify_cycle`
  unfoldable pub verify_cycle : Batch → MtpState → Result (Batch × MtpState)
  verify_cycle b s =
      let previous_main = noted b.token_context s.next_main in
      let previous_draft = noted previous_main s.draft_id in
      let cache = T.verify b.prompt_cache s.next_main s.draft_id in
      let first = T.first_row b.prompt_cache s.next_main s.draft_id in
      let second = T.second_row b.prompt_cache s.next_main s.draft_id in
      let verify_logprobs = T.normalized (apply_processors previous_main first.0) in
      let bonus_logprobs = T.normalized (apply_processors previous_draft second.0) in
      let drawn = T.sample b.rng bonus_logprobs in
      let decision = is_accepted drawn.1 verify_logprobs s in
      let b' = record b {
        prompt_cache = cache;
        token_context = previous_draft;
        rng = decision.1;
      } in
      let s' = record s {
        last_uncached_token = none;
        telemetry = record_proposal decision.0 s.telemetry;
      } in
      if decision.0
      then ok (accept second.1 drawn.0 bonus_logprobs previous_draft b' s')
      else reject first.1 verify_logprobs previous_main b' s'

  -- `_commit_last_uncached`
  unfoldable pub commit_last_uncached : Batch → MtpState → Batch
  commit_last_uncached b s = elim s.last_uncached_token [
    | none ↦ b
    | some t ↦ record b { prompt_cache = T.extend b.prompt_cache t }
  ]

  -- The parts of `Response` that the sequence's owner reads; a response that does not end the
  -- sequence has no cache.
  pub record Response : Type 0 where
    pub token : ℕ
    pub finish_reason : Option FinishReason
    pub prompt_cache : Option Cache

  -- The end of `_emit`: a sequence that goes on keeps its state, one that ends hands out its cache.
  unfoldable pub conclude :
      Option FinishReason → ℕ → Batch → Batch → MtpState → Batch × Option MtpState × Response
  conclude none token b final s =
      (b, some s, record { token = token; finish_reason = none; prompt_cache = none })
  conclude (some r) token b final s = (
    final,
    none,
    record { token = token; finish_reason = some r; prompt_cache = some final.prompt_cache },
  )

  -- `_emit`: the batch, the state unless the sequence has ended, and the response
  unfoldable pub emit : ℕ → Bool → Batch → MtpState → Batch × Option MtpState × Response
  unfolding commit_last_uncached conclude finish_reason_of
  emit token cached b s =
      let matched = T.match b.matcher_state token in
      let b' = record b {
        tokens = b.tokens ++ token ∷ [];
        num_tokens = b.num_tokens + 1;
        matcher_state = matched.0;
      } in
      conclude (finish_reason_of (b.num_tokens + 1) b.max_tokens matched.1) token b'
        (if cached then b' else commit_last_uncached b' s) s

  -- `_mtp_next` behind its verification: `RuntimeError` where that left nothing to emit
  unfoldable pub pop_queue :
      List Queued → Batch → MtpState → Result (Batch × Option MtpState × Response)
  pop_queue [] b s = err runtime_error
  pop_queue (i ∷ rest) b s = ok (
      emit i.token i.cached b (record s {
        queue = rest;
        telemetry = record_emitted i.source s.telemetry;
        last_uncached_token = if i.cached then none else some i.token;
      }))

  abbrev pub is_empty : List Queued → Bool
  is_empty [] = true
  is_empty (i ∷ is) = false

  -- `_mtp_next`
  unfoldable pub mtp_next : Batch → MtpState → Result (Batch × Option MtpState × Response)
  mtp_next b s = do
    (b', s') ← if is_empty s.queue then verify_cycle b s else ok (b, s)
    pop_queue s'.queue b' s'

  -- A response, and those of what goes on after it.
  abbrev pub goes_on :
      (Batch → MtpState → List Response)
      → Result (Batch × Option MtpState × Response)
      → List Response
  goes_on rest (err e) = []
  goes_on rest (ok (b, none, r)) = r ∷ []
  goes_on rest (ok (b, some s, r)) = r ∷ rest b s

  -- The responses of so many calls of `_mtp_next`, until the sequence ends or a call raises.
  unfoldable pub responses : ℕ → Batch → MtpState → List Response
  responses zero b s = []
  responses (suc n) b s = goes_on (responses n) (mtp_next b s)
