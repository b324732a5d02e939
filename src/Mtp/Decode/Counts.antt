-- ===== src/Mtp/Decode/Counts.antt =====
-- What the telemetry of tokenity/inference/native_mtp/generation.py counts, with any sampler: a
-- verification brings one token, and one more where it accepts the draft.
use tokenity.Common.{
  ℕ, zero, suc, ◌+◌, ◌≤◌, ◌≡◌, Bool, true, false, if◌then◌else◌, List, [], ◌∷◌, ◌++◌, Option, none,
  some, arith, inl, inr, Bool-cases, Option-cases, subst, ap, or_default,
}
use tokenity.Errors.{Result, ok, err, from_ok, Result-cases, Result-cases}
use tokenity.Mtp.Target.{
  Target, Telemetry, FinishReason, is_verify_source, record_proposal, record_emitted,
  finish_reason_of,
}
use tokenity.Mtp.Decode.{
  Batch, MtpState, Queued, Response, noted, apply_processors, step_head, post_init, is_accepted,
  accept, reject, verify_cycle, emit, conclude, commit_last_uncached, pop_queue, mtp_next, is_empty,
}

-- The counts with which the controller of tokenity/inference/native_mtp/runtime.py starts.
abbrev pub zero_telemetry : Telemetry
zero_telemetry = record {
  proposed_tokens = 0;
  accepted_tokens = 0;
  verify_cycles = 0;
  emitted_verify_tokens = 0;
}

module _ (T : Target) where
  -- The tokens of verifications that wait in a queue.
  abbrev pub verify_items : List (Queued T) → ℕ
  verify_items [] = 0
  verify_items (i ∷ q) = (if is_verify_source i.source then 1 else 0) + verify_items q

  -- Each cycle has brought one token, each accepted draft one more; but for `owed` of them, they are
  -- emitted or wait.
  pub Owes : ℕ → MtpState T → Type 0
  Owes owed s =
      (s.telemetry.verify_cycles ≡ s.telemetry.proposed_tokens)
      × (s.telemetry.accepted_tokens ≤ s.telemetry.proposed_tokens)
      × (s.telemetry.emitted_verify_tokens + verify_items s.queue + owed
          ≡ s.telemetry.verify_cycles + s.telemetry.accepted_tokens)

  unfoldable pub IsCounted : MtpState T → Type 0
  unfolding Owes
  IsCounted s = Owes 0 s

  verify_items-append :
      (q is : List (Queued T)) → verify_items (q ++ is) ≡ verify_items q + verify_items is
  verify_items-append [] is = omega arith
  verify_items-append (i ∷ q) is = omega (arith, verify_items-append q is)

  accept-IsCounted :
      (hidden : T.Hidden) (token : ℕ) (l : T.Logits) (previous : List ℕ) (b : Batch T)
      (s : MtpState T)
      → Owes 2 s
      → IsCounted (accept T hidden token l previous b s).1
  unfolding IsCounted Owes accept step_head
  accept-IsCounted hidden token l previous b s h = omega (arith, verify_items-append s.queue _)

  ok_snd :
      (out : Batch T × MtpState T) (b' : Batch T) (s' : MtpState T)
      → ok out ≡ ok (b', s')
      → out.1 ≡ s'
  ok_snd out b' s' e = ap (λ (m : Result (Batch T × MtpState T)). (from_ok out m).1) e

  reject-IsCounted :
      (hidden : T.Hidden) (l : T.Logits) (previous : List ℕ) (b b' : Batch T) (s s' : MtpState T)
      → Owes 1 s
      → reject T hidden l previous b s ≡ ok (b', s')
      → IsCounted s'
  unfolding reject IsCounted Owes step_head
  reject-IsCounted hidden l previous b b' s s' h e =
      elim (Bool-cases (T.restore b.prompt_cache).1) [
        | inl y ↦
            subst (Owes 0) (ok_snd _ b' s' (rw y at e))
              (omega (arith, verify_items-append s.queue _))
        | inr n ↦ absurd (ground (arith, n))
      ]

  -- The branches of the verification.
  decided-IsCounted :
      (accepted : Bool) (s : MtpState T)
      → IsCounted s
      → Owes (if accepted then 2 else 1) (record s {
        last_uncached_token = none;
        telemetry = record_proposal accepted s.telemetry;
      })
  unfolding IsCounted Owes record_proposal
  decided-IsCounted true s h = omega arith
  decided-IsCounted false s h = omega arith

  verify_cycle-IsCounted :
      (b : Batch T) (s : MtpState T) (b' : Batch T) (s' : MtpState T)
      → IsCounted s
      → verify_cycle T b s ≡ ok (b', s')
      → IsCounted s'
  unfolding verify_cycle
  verify_cycle-IsCounted b s b' s' h e =
      let u = s.next_main in
      let previous = noted T b.token_context u in
      let first = T.first_row b.prompt_cache u s.draft_id in
      let second = T.second_row b.prompt_cache u s.draft_id in
      let drawn =
        T.sample b.rng (T.normalized (apply_processors T (noted T previous s.draft_id) second.0)) in
      let decision = is_accepted T drawn.1 (T.normalized (apply_processors T previous first.0)) s in
      elim (Bool-cases decision.0) [
        | inl y ↦
            subst IsCounted (ok_snd _ b' s' (rw y at e))
              (accept-IsCounted _ _ _ _ _ _ (decided-IsCounted true s h))
        | inr n ↦ reject-IsCounted _ _ _ _ b' _ s' (decided-IsCounted false s h) (rw n at e)
      ]

  conclude-state :
      (o : Option FinishReason) (token : ℕ) (b final b' : Batch T) (s s' : MtpState T)
      (r : Response T)
      → ok (conclude T o token b final s) ≡ ok (b', some s', r)
      → s ≡ s'
  unfolding conclude
  conclude-state none token b final b' s s' r e = cc
  conclude-state (some o) token b final b' s s' r e = absurd (ground arith)

  emit-state :
      (token : ℕ) (cached : Bool) (b b' : Batch T) (s s' : MtpState T) (r : Response T)
      → ok (emit T token cached b s) ≡ ok (b', some s', r)
      → s ≡ s'
  unfolding emit
  emit-state token cached b b' s s' r e =
      let counted : Batch T = record b {
        tokens = b.tokens ++ token ∷ [];
        num_tokens = b.num_tokens + 1;
        matcher_state = (T.match b.matcher_state token).0;
      } in
      conclude-state
        (finish_reason_of (b.num_tokens + 1) b.max_tokens (T.match b.matcher_state token).1) token
        counted (if cached then counted else commit_last_uncached T counted s) b' s s' r e

  moved :
      (i : Queued T) (q : List (Queued T)) (s : MtpState T) (u : Option ℕ)
      → Owes 0 (record s { queue = i ∷ q })
      → Owes 0 (record s {
        queue = q;
        telemetry = record_emitted i.source s.telemetry;
        last_uncached_token = u;
      })
  unfolding Owes record_emitted
  moved i q s u h = elim (Bool-cases (is_verify_source i.source)) [
    | inl y ↦ ground (arith, y)
    | inr n ↦ ground (arith, n)
  ]

  popped-IsCounted :
      (q : List (Queued T)) (b b' : Batch T) (s s' : MtpState T) (r : Response T)
      → Owes 0 (record s { queue = q })
      → pop_queue T q b s ≡ ok (b', some s', r)
      → IsCounted s'
  unfolding pop_queue IsCounted
  popped-IsCounted [] b b' s s' r h e = absurd (ground arith)
  popped-IsCounted (i ∷ q) b b' s s' r h e =
      subst (Owes 0) (emit-state i.token i.cached b b' _ s' r e)
        (moved i q s (if i.cached then none else some i.token) h)

  -- One call keeps the counts.
  mtp_next-IsCounted :
      (b b' : Batch T) (s s' : MtpState T) (r : Response T)
      → IsCounted s
      → mtp_next T b s ≡ ok (b', some s', r)
      → IsCounted s'
  unfolding mtp_next IsCounted
  mtp_next-IsCounted b b' s s' r h e = elim (Bool-cases (is_empty T s.queue)) [
    | inl y ↦ elim (Result-cases (verify_cycle T b s)) [
      | inl (x, v) ↦ absurd (ground (arith, rw (y, v) at e))
      | inr (out, v) ↦
          popped-IsCounted out.1.queue out.0 b' out.1 s' r
            (verify_cycle-IsCounted b s out.0 out.1 h v) (rw (y, v) at e)
    ]
    | inr n ↦ popped-IsCounted s.queue b b' s s' r h (rw n at e)
  ]

  abbrev follow :
      (Batch T → MtpState T → Option (Batch T × MtpState T))
      → Result (Batch T × Option (MtpState T) × Response T)
      → Option (Batch T × MtpState T)
  follow next (err e) = none
  follow next (ok (b, none, r)) = none
  follow next (ok (b, some s, r)) = next b s

  -- The batch and the state after so many calls, while the sequence goes on.
  unfoldable pub after : ℕ → Batch T → MtpState T → Option (Batch T × MtpState T)
  after zero b s = some (b, s)
  after (suc n) b s = follow (after n) (mtp_next T b s)

  after-IsCounted :
      (n : ℕ) (b b' : Batch T) (s s' : MtpState T)
      → IsCounted s
      → after n b s ≡ some (b', s')
      → IsCounted s'
  unfolding after
  after-IsCounted zero b b' s s' h e =
      subst IsCounted (ap (λ (o : Option (Batch T × MtpState T)). (or_default o (b, s)).1) e) h
  after-IsCounted (suc n) b b' s s' h e = elim (Result-cases (mtp_next T b s)) [
    | inl (x, v) ↦ absurd (ground (arith, rw v at e))
    | inr ((b1, o, r), v) ↦ elim (Option-cases o) [
      | inl none_left ↦ absurd (ground (arith, rw (v, none_left) at e))
      | inr (t, left) ↦
          after-IsCounted n b1 b' t s' (mtp_next-IsCounted b b1 s t r h (rw left at v))
            (rw (v, left) at e)
    ]
  ]

  -- With any sampler, on any target, for a sequence that starts with a telemetry in which each
  -- proposal was one cycle, no more drafts were accepted than proposed, and one token was emitted for
  -- each cycle and one more for each accepted draft, as in a telemetry of zeros: after so many calls
  -- that raise nothing and do not end the sequence, a cycle was counted for each proposal, no more
  -- drafts were accepted than proposed, and the tokens of verifications that were emitted and those
  -- that wait are one for each cycle and one more for each accepted draft.
  pub telemetry_counts :
      (n main : ℕ) (l : T.Logits) (t : Telemetry) (b b' : Batch T) (s' : MtpState T)
      → t.verify_cycles ≡ t.proposed_tokens
      → t.accepted_tokens ≤ t.proposed_tokens
      → t.emitted_verify_tokens ≡ t.verify_cycles + t.accepted_tokens
      → after n (post_init T main l t b).0 (post_init T main l t b).1 ≡ some (b', s')
      → (s'.telemetry.verify_cycles ≡ s'.telemetry.proposed_tokens)
        × (s'.telemetry.accepted_tokens ≤ s'.telemetry.proposed_tokens)
        × (s'.telemetry.emitted_verify_tokens + verify_items s'.queue
            ≡ s'.telemetry.verify_cycles + s'.telemetry.accepted_tokens)
  unfolding IsCounted Owes post_init
  telemetry_counts n main l t b b' s' c a v e =
      let h = after-IsCounted n _ b' _ s' (c, a, omega (arith, v)) e in
      (h.0, h.1, omega (arith, h.2))
