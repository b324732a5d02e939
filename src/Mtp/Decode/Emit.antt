-- ===== src/Mtp/Decode/Emit.antt =====
-- What one call of `_mtp_next` (tokenity/inference/native_mtp/generation.py) hands out, beside plain
-- decoding.
use tokenity.Common.{
  ℕ, ◌+◌, ◌≡◌, refl, sym, ap, ◌∙◌, Bool, false, if◌then◌else◌, List, [], ◌∷◌, ◌++◌, none, some,
  arith,
}
use tokenity.Errors.{ok}
use tokenity.Mtp.Target.{Target, FinishReason, record_emitted, finish_reason_of}
use tokenity.Mtp.Decode.{
  Batch, MtpState, Queued, noted, commit_last_uncached, emit, conclude, pop_queue, is_empty,
}
use tokenity.Mtp.Decode.Plain.{TargetLaws, Plain, choose_next, advance, reason_of, respond}
use tokenity.Mtp.Decode.Greedy.{Stands, Agrees}

module _ (T : Target) (W : TargetLaws T) where
  -- The batch after a token was handed out.
  abbrev counted : ℕ → Batch T → Batch T
  counted token b = record b {
    tokens = b.tokens ++ token ∷ [];
    num_tokens = b.num_tokens + 1;
    matcher_state = (T.match b.matcher_state token).0;
  }

  module _ (token : ℕ) (cached : Bool) (b : Batch T) (s : MtpState T) (p : Plain T)
      (t : token ≡ p.pending) (count : p.count ≡ b.num_tokens) (limit : p.limit ≡ b.max_tokens)
      (matcher : p.matcher ≡ b.matcher_state) where
    reason_lem :
        reason_of T p
        ≡ finish_reason_of (b.num_tokens + 1) b.max_tokens (T.match b.matcher_state token).1
    unfolding reason_of
    reason_lem = rw (count, limit, matcher, t) refl

    concluded :
        emit T token cached b s
        ≡ conclude T
            (reason_of T p)
            token
            (counted token b)
            (if cached then counted token b else commit_last_uncached T (counted token b) s)
            s
    unfolding emit
    concluded =
        ap
          (λ r.
            conclude T r token (counted token b)
              (if cached then counted token b else commit_last_uncached T (counted token b) s) s)
          (sym reason_lem)

    -- The token goes out, and the state stays where plain decoding goes on.
    pub emit-none :
        reason_of T p ≡ none → emit T token cached b s ≡ (counted token b, some s, respond T none p)
    unfolding respond conclude
    emit-none n = concluded ∙ rw (n, t) refl

    conclude-some :
        (r : FinishReason) (final : Batch T)
        → final.prompt_cache ≡ T.extend p.cache p.pending
        → conclude T (some r) token (counted token b) final s ≡ (final, none, respond T (some r) p)
    unfolding respond conclude
    conclude-some r final c = λ i.
        (final, none, record { token = t i; finish_reason = some r; prompt_cache = some (c i) })

    -- At its end a sequence hands out the cache of all its tokens, also if the last was not in it.
    pub emit-some :
        (r : FinishReason)
        → (if cached
            then counted token b
            else commit_last_uncached T (counted token b) s).prompt_cache
          ≡ T.extend p.cache p.pending
        → reason_of T p ≡ some r
        → (b' : Batch T) × (emit T token cached b s ≡ (b', none, respond T (some r) p))
    emit-some r c n =
        let final =
          if cached then counted token b else commit_last_uncached T (counted token b) s in
        (
          final,
          concluded
              ∙ ap (λ o. conclude T o token (counted token b) final s) n
              ∙ conclude-some r final c,
        )

  -- A state whose queue is not empty hands out the token of plain decoding, and the rest agrees with
  -- plain decoding one token on.
  pub pop-Agrees :
      (q : List (Queued T)) (b : Batch T) (s : MtpState T) (p : Plain T)
      → is_empty T q ≡ false
      → Stands T W q b s.next_main p
      → p.count ≡ b.num_tokens
      → p.limit ≡ b.max_tokens
      → p.matcher ≡ b.matcher_state
      → ((reason_of T p ≡ none)
          → (b' : Batch T) × (s' : MtpState T) × (pop_queue T q b s
              ≡ ok (b', some s', respond T none p))
            × Agrees T W b' s' (advance T p))
        × ((r : FinishReason)
            → reason_of T p ≡ some r
            → (b' : Batch T) × (pop_queue T q b s ≡ ok (b', none, respond T (some r) p)))
  unfolding pop_queue Stands Agrees advance commit_last_uncached
  pop-Agrees [] b s p f h count limit matcher = absurd (ground arith)
  pop-Agrees (i ∷ []) b s p f (clean, cache, context, pending, token, uncached) count limit
        matcher =
      let s' : MtpState T = record s {
        queue = [];
        telemetry = record_emitted i.source s.telemetry;
        last_uncached_token = if i.cached then none else some i.token;
      } in
      let t = token ∙ sym pending in
      (
        λ n. (
          counted i.token b,
          s',
          ap ok (emit-none i.token i.cached b s' p t count limit matcher n),
          (
            (
              clean,
              λ k. T.extend (cache k) (pending k),
              λ k. noted T (context k) (pending k),
              refl,
            ),
            ap (λ m. m + 1) count,
            limit,
            λ k. (T.match (matcher k) (sym t k)).0,
          ),
        ),
        λ r n.
            let (b', e) =
              emit-some i.token i.cached b s' p t count limit matcher r
                (ground (arith, uncached, cache, pending, token)) n in
            (b', ap ok e),
      )
  pop-Agrees (i ∷ j ∷ []) b s p f (clean, cache, context, next, token, cached, token', uncached)
        count limit matcher =
      let s' : MtpState T = record s {
        queue = j ∷ [];
        telemetry = record_emitted i.source s.telemetry;
        last_uncached_token = if i.cached then none else some i.token;
      } in
      (
        λ n. (
          counted i.token b,
          s',
          ap ok (emit-none i.token i.cached b s' p token count limit matcher n),
          (
            (
              clean,
              sym cache,
              sym context,
              (λ k. choose_next T (sym cache k) (sym context k)) ∙ sym next,
              token',
              uncached,
            ),
            ap (λ m. m + 1) count,
            limit,
            λ k. (T.match (matcher k) (sym token k)).0,
          ),
        ),
        λ r n.
            let (b', e) =
              emit-some i.token i.cached b s' p token count limit matcher r
                (ground (arith, cached, cache)) n in
            (b', ap ok e),
      )
  pop-Agrees (i ∷ j ∷ k ∷ q) b s p f h count limit matcher = absurd h
