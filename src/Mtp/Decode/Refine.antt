-- ===== src/Mtp/Decode/Refine.antt =====
-- Native prediction (tokenity/inference/native_mtp/generation.py) refines plain greedy decoding.
use tokenity.Common.{
  ℕ, zero, suc, ◌≡◌, refl, ap, ◌∙◌, true, false, if◌then◌else◌, List, [], ◌∷◌, Option, none,
  Option-cases, Bool-cases, inl, inr,
}
use tokenity.Errors.{Result, ok, ◌>>=◌}
use tokenity.Mtp.Target.{Target, Telemetry}
use tokenity.Mtp.Decode.{
  Batch, MtpState, Queued, Response, pop_queue, mtp_next, responses, is_empty, post_init,
  verify_cycle,
}
use tokenity.Mtp.Decode.Plain.{TargetLaws, Plain, advance, reason_of, respond, plain, started}
use tokenity.Mtp.Decode.Greedy.{Stands, Agrees, verify_cycle-Agrees}
use tokenity.Mtp.Decode.Emit.{pop-Agrees}

module _ (T : Target) (W : TargetLaws T) where
  empty_queue : (q : List (Queued T)) → is_empty T q ≡ true → q ≡ []
  empty_queue [] h = refl
  empty_queue (i ∷ q) h = cc

  -- The verification is made where there is nothing to hand out, and leaves something.
  filled_queue :
      (b : Batch T) (s : MtpState T) (p : Plain T)
      → T.is_greedy ≡ true
      → Agrees T W b s p
      → (b' : Batch T) × (s' : MtpState T) × ((if is_empty T s.queue
            then verify_cycle T b s
            else ok (b, s))
          ≡ ok (b', s'))
        × Agrees T W b' s' p
        × (is_empty T s'.queue ≡ false)
  filled_queue b s p g h = elim (Bool-cases (is_empty T s.queue)) [
    | inl e ↦ rw e (verify_cycle-Agrees T W b s p g (empty_queue s.queue e) h)
    | inr e ↦ (b, s, rw e refl, h, e)
  ]

  mtp_next-eq :
      (b b' : Batch T) (s s' : MtpState T)
      (out : Result (Batch T × Option (MtpState T) × Response T))
      → (if is_empty T s.queue then verify_cycle T b s else ok (b, s)) ≡ ok (b', s')
      → pop_queue T s'.queue b' s' ≡ out
      → mtp_next T b s ≡ out
  unfolding mtp_next
  mtp_next-eq b b' s s' out e o =
      ap (λ m. m >>= λ (q : Batch T × MtpState T). pop_queue T q.1.queue q.0 q.1) e ∙ o

  responses-plain :
      (n : ℕ) (b : Batch T) (s : MtpState T) (p : Plain T)
      → T.is_greedy ≡ true
      → Agrees T W b s p
      → responses T n b s ≡ plain T n p
  unfolding responses plain Agrees
  responses-plain zero b s p g h = refl
  responses-plain (suc n) b s p g h =
      let (b', s', e, (stands, count, limit, matcher), f) = filled_queue b s p g h in
      let (goes, ends) = pop-Agrees T W s'.queue b' s' p f stands count limit matcher in
      elim (Option-cases (reason_of T p)) [
        | inl r ↦
            (let (b2, s2, o, next) = goes r in
              rw (mtp_next-eq b b' s s' _ e o, r)
                (ap (λ rest. respond T none p ∷ rest)
                  (responses-plain n b2 s2 (advance T p) g next)))
        | inr (reason, r) ↦
            (let (b2, o) = ends reason r in rw (mtp_next-eq b b' s s' _ e o, r) refl)
      ]

  post_init-Agrees :
      (main : ℕ) (l : T.Logits) (t : Telemetry) (b : Batch T)
      → T.is_greedy ≡ true
      → W.IsClean b.prompt_cache
      → Agrees T W (post_init T main l t b).0 (post_init T main l t b).1 (started T main b)
  unfolding Agrees Stands post_init
  post_init-Agrees main l t b g clean = (
    (
      W.extend-IsClean b.prompt_cache main clean,
      refl,
      refl,
      W.sample-greedy b.rng _ g,
      refl,
      refl,
      refl,
      refl,
    ),
    refl,
    refl,
    refl,
  )

  -- Without temperature, on a target that keeps its laws and from a clean cache, the calls of native
  -- prediction hand out the tokens, the reasons to end and the final cache of plain greedy decoding,
  -- whatever the head of the model drafts; no call raises.
  pub prediction_refines_plain :
      (n main : ℕ) (l : T.Logits) (t : Telemetry) (b : Batch T)
      → T.is_greedy ≡ true
      → W.IsClean b.prompt_cache
      → responses T n (post_init T main l t b).0 (post_init T main l t b).1
        ≡ plain T n (started T main b)
  prediction_refines_plain n main l t b g clean =
      responses-plain n _ _ (started T main b) g (post_init-Agrees main l t b g clean)
