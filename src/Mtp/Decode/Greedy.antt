-- ===== src/Mtp/Decode/Greedy.antt =====
-- Without temperature, native prediction answers like plain decoding, whatever its head drafts:
-- tokenity/inference/native_mtp/generation.py.
use tokenity.Common.{
  ℕ, ◌≡◌, refl, sym, ap, ◌∙◌, Bool, true, false, nat_beq, List, [], ◌∷◌, ◌++◌, arith, Bool-cases,
  inl, inr, subst,
}
use tokenity.Errors.{ok}
use tokenity.Mtp.Target.{Target, drop_last}
use tokenity.Mtp.Decode.{
  Batch, MtpState, Queued, noted, unnoted, apply_processors, step_head, is_accepted, replacement,
  accept, reject, verify_cycle, is_empty,
}
use tokenity.Mtp.Decode.Plain.{TargetLaws, Plain, choose_next}

drop_last-append : (xs : List ℕ) (x : ℕ) → drop_last (xs ++ x ∷ []) ≡ xs
drop_last-append [] x = refl
drop_last-append (a ∷ []) x = refl
drop_last-append (a ∷ b ∷ xs) x = ap (λ ys. a ∷ ys) (drop_last-append (b ∷ xs) x)

module _ (T : Target) (W : TargetLaws T) where
  unnoted-noted : (context : List ℕ) (t : ℕ) → unnoted T (noted T context t) ≡ context
  unnoted-noted context t = ground (arith, drop_last-append context t)

  -- How the queue, the cache and the context of a state stand to plain decoding.
  unfoldable pub Stands : List (Queued T) → Batch T → ℕ → Plain T → Type 0
  Stands [] b next p =
      (W.IsClean b.prompt_cache)
      × (p.cache ≡ T.extend b.prompt_cache next)
      × (p.context ≡ noted T b.token_context next)
      × (p.pending ≡ choose_next T p.cache p.context)
  Stands (i ∷ []) b next p =
      (W.IsClean b.prompt_cache)
      × (p.cache ≡ b.prompt_cache)
      × (p.context ≡ b.token_context)
      × (p.pending ≡ next)
      × (i.token ≡ next)
      × (i.cached ≡ false)
  Stands (i ∷ j ∷ []) b next p =
      (W.IsClean b.prompt_cache)
      × (b.prompt_cache ≡ T.extend p.cache p.pending)
      × (b.token_context ≡ noted T p.context p.pending)
      × (next ≡ choose_next T b.prompt_cache b.token_context)
      × (i.token ≡ p.pending)
      × (i.cached ≡ true)
      × (j.token ≡ next)
      × (j.cached ≡ false)
  Stands (i ∷ j ∷ k ∷ q) b next p = ⊥

  -- The rest of the batch agrees too.
  unfoldable pub Agrees : Batch T → MtpState T → Plain T → Type 0
  unfolding Stands
  Agrees b s p =
      (Stands s.queue b s.next_main p)
      × (p.count ≡ b.num_tokens)
      × (p.limit ≡ b.max_tokens)
      × (p.matcher ≡ b.matcher_state)

  Stands-append :
      (q is : List (Queued T)) (b : Batch T) (next : ℕ) (p : Plain T)
      → q ≡ []
      → Stands is b next p
      → Stands (q ++ is) b next p
  Stands-append q is b next p e h = subst (λ r. Stands (r ++ is) b next p) (sym e) h

  filled : (q is : List (Queued T)) (i : Queued T) → is_empty T (q ++ i ∷ is) ≡ false
  filled [] is i = refl
  filled (j ∷ q) is i = refl

  accept-Agrees :
      (hidden : T.Hidden) (token : ℕ) (l : T.Logits) (previous : List ℕ) (b : Batch T)
      (s : MtpState T) (p : Plain T)
      → s.queue ≡ []
      → W.IsClean (T.clear b.prompt_cache)
      → T.clear b.prompt_cache ≡ T.extend p.cache p.pending
      → b.token_context ≡ noted T p.context p.pending
      → token ≡ choose_next T (T.clear b.prompt_cache) b.token_context
      → s.draft_id ≡ p.pending
      → (p.count ≡ b.num_tokens) × (p.limit ≡ b.max_tokens) × (p.matcher ≡ b.matcher_state)
      → (b' : Batch T) × (s' : MtpState T) × (ok (accept T hidden token l previous b s)
          ≡ ok (b', s'))
        × Agrees b' s' p
        × (is_empty T s'.queue ≡ false)
  unfolding accept step_head Agrees Stands
  accept-Agrees hidden token l previous b s p e clean cache context next d rest = (
    _,
    _,
    refl,
    (
      Stands-append s.queue _ _ token p e (clean, cache, context, next, d, refl, refl, refl),
      rest.0,
      rest.1,
      rest.2,
    ),
    filled s.queue _ _,
  )

  reject-Agrees :
      (hidden : T.Hidden) (l : T.Logits) (previous : List ℕ) (b : Batch T) (s : MtpState T)
      (p : Plain T)
      → s.queue ≡ []
      → W.IsClean p.cache
      → T.restore b.prompt_cache ≡ (p.cache, true)
      → p.context ≡ unnoted T b.token_context
      → (replacement T b.rng l s).0 ≡ p.pending
      → (p.count ≡ b.num_tokens) × (p.limit ≡ b.max_tokens) × (p.matcher ≡ b.matcher_state)
      → (b' : Batch T) × (s' : MtpState T) × (reject T hidden l previous b s ≡ ok (b', s'))
        × Agrees b' s' p
        × (is_empty T s'.queue ≡ false)
  unfolding reject step_head Agrees Stands
  reject-Agrees hidden l previous b s p e clean restored context emits rest = rw restored (
    _,
    _,
    refl,
    (
      Stands-append s.queue _ _ _ p e (clean, refl, context, sym emits, refl, refl),
      rest.0,
      rest.1,
      rest.2,
    ),
    filled s.queue _ _,
  )

  -- What the verification finds best is what plain decoding takes next.
  verify_choose :
      (c : T.Cache) (u d : ℕ) (context : List ℕ)
      → T.argmax (T.normalized (apply_processors T context (T.first_row c u d).0))
        ≡ choose_next T (T.extend c u) context
  verify_choose c u d context = rw (W.first_row_lem c u d) refl

  bonus_choose :
      (rng : T.Rng) (c : T.Cache) (u d : ℕ) (context : List ℕ)
      → T.is_greedy ≡ true
      → (T.sample rng (T.normalized (apply_processors T context (T.second_row c u d).0))).0
        ≡ choose_next T (T.extend (T.extend c u) d) context
  bonus_choose rng c u d context g = rw (W.second_row_lem c u d) (W.sample-greedy rng _ g)

  is_accepted-greedy :
      (rng : T.Rng) (l : T.Logits) (s : MtpState T) (v : Bool)
      → T.is_greedy ≡ true
      → nat_beq (T.argmax l) s.draft_id ≡ v
      → is_accepted T rng l s ≡ (v, rng)
  unfolding is_accepted
  is_accepted-greedy rng l s v g e = ground (arith, g, e)

  replacement-greedy :
      (rng : T.Rng) (l : T.Logits) (s : MtpState T)
      → T.is_greedy ≡ true
      → (replacement T rng l s).0 ≡ T.argmax l
  unfolding replacement
  replacement-greedy rng l s g = ground (arith, g)

  -- The state of plain decoding, from an empty queue, in terms of the batch.
  pending-verify :
      (b : Batch T) (u d : ℕ) (p : Plain T)
      → Stands [] b u p
      → p.pending
        ≡ T.argmax (
            T.normalized
              (apply_processors T (noted T b.token_context u) (T.first_row b.prompt_cache u d).0))
  unfolding Stands
  pending-verify b u d p (clean, cache, context, next) =
      cc (verify_choose b.prompt_cache u d (noted T b.token_context u))

  pub verify_cycle-Agrees :
      (b : Batch T) (s : MtpState T) (p : Plain T)
      → T.is_greedy ≡ true
      → s.queue ≡ []
      → Agrees b s p
      → (b' : Batch T) × (s' : MtpState T) × (verify_cycle T b s ≡ ok (b', s'))
        × Agrees b' s' p
        × (is_empty T s'.queue ≡ false)
  unfolding Agrees Stands verify_cycle
  verify_cycle-Agrees b s p g e h =
      let u = s.next_main in
      let d = s.draft_id in
      let stands : Stands [] b u p = subst (λ q. Stands q b u p) e h.0 in
      let (clean, cache, context, next) = stands in
      let l =
        T.normalized
          (apply_processors T (noted T b.token_context u) (T.first_row b.prompt_cache u d).0) in
      let found : p.pending ≡ T.argmax l = pending-verify b u d p stands in
      let cleared = W.clear-verify b.prompt_cache u d clean in
      let clean' : W.IsClean (T.extend b.prompt_cache u) =
        W.extend-IsClean b.prompt_cache u clean in
      elim (Bool-cases (nat_beq (T.argmax l) d)) [
        | inl y ↦
            (let same : d ≡ p.pending = ground (arith, y, found) in
              rw (is_accepted-greedy _ l s true g y) (
                accept-Agrees _ _ _ _ _ _ p e
                  (subst W.IsClean (sym cleared)
                    (W.extend-IsClean (T.extend b.prompt_cache u) d clean'))
                  (cc) (cc) (bonus_choose b.rng b.prompt_cache u d _ g ∙ cc) same (h.1, h.2, h.3)))
        | inr n ↦ rw (is_accepted-greedy _ l s false g n) (
            reject-Agrees _ l _ _ _ p e (subst W.IsClean (sym cache) clean')
              (W.restore-verify b.prompt_cache u d clean ∙ cc)
              (context ∙ sym (unnoted-noted (noted T b.token_context u) d))
              (replacement-greedy _ l _ g ∙ sym found) (h.1, h.2, h.3))
      ]
