-- ===== src/Mtp/Prepare/Stuck.antt =====
-- `prepare` of tokenity/inference/native_mtp/runtime.py on ranks of which only some have a supported
-- mlx-lm: those leave before the second comparison of fingerprints, for which the others wait.
use tokenity.Common.{
  ℕ, zero, suc, ◌≡◌, refl, ap, ap₂, ◌∙◌, Bool, true, false, any, all, map, length, List, [], ◌∷◌,
  All, none, some, arith, inl, inr, Bool-cases,
}
use tokenity.Mtp.Fingerprints.{total}
use tokenity.Mtp.Fingerprints.Agreement.{HasShape, IsFingerprint, rank_fingerprints_match_iff}
use tokenity.Mtp.Prepare.{
  Decision, Controller, Protocol, done, match_fingerprint, unsupported_runtime, fallback_or_raise,
  after_match, after_second_match, prepare,
}
use tokenity.Mtp.Prepare.Ranks.{
  ended, asked, flagged, answered, lockstep, unless_ended, go_on_asked, go_on_flagged,
}

module _ (Facts : Type 0) (all_sum : List (List (List ℕ)) → List (List ℕ))
    (fingerprint : Decision Facts → List ℕ) (runtime_ok : List ℕ → List ℕ) where
  -- Nothing but the runtime can keep the rank from drafting.
  unfoldable pub IsReady : Controller Facts → Type 0
  IsReady c =
      (c.decision.enabled ≡ true) × (c.decode_concurrency ≡ 1) × (c.pipeline_parallel ≡ false)

  abbrev pub follows : Controller Facts → Bool → Protocol Facts
  follows c = after_match Facts fingerprint runtime_ok c

  abbrev pub begins : Controller Facts → Protocol Facts
  begins c = prepare Facts fingerprint runtime_ok c

  abbrev pub own : Controller Facts → List ℕ
  own c = fingerprint c.decision

  follows-supported :
      (c : Controller Facts)
      → IsReady c
      → c.supported ≡ true
      → follows c true
        ≡ match_fingerprint (runtime_ok (own c)) (after_second_match Facts fingerprint runtime_ok c)
  unfolding IsReady after_match
  follows-supported c (e, n, p) s = rw (e, n, p, s)

  follows-unsupported :
      (c : Controller Facts)
      → IsReady c
      → c.supported ≡ false
      → follows c true ≡ done (fallback_or_raise Facts unsupported_runtime c)
  unfolding IsReady after_match
  follows-unsupported c (e, n, p) s = rw (e, n, p, s)

  ended-waiting :
      (cs : List (Controller Facts))
      → All IsReady cs
      → any (λ c. c.supported) cs ≡ true
      → ended Facts all_sum (map (λ c. follows c true) cs) ≡ none
  unfolding ended
  ended-waiting [] r h = absurd (ground (arith, h))
  ended-waiting (c ∷ cs) r h = elim (Bool-cases c.supported) [
    | inl y ↦ rw (follows-supported c r.0 y)
    | inr n ↦ rw (follows-unsupported c r.0 n, ended-waiting cs r.1 (rw n at h))
  ]

  asked-left :
      (cs : List (Controller Facts))
      → All IsReady cs
      → all (λ c. c.supported) cs ≡ false
      → asked Facts all_sum (map (λ c. follows c true) cs) ≡ none
  unfolding asked
  asked-left [] r h = absurd (ground (arith, h))
  asked-left (c ∷ cs) r h = elim (Bool-cases c.supported) [
    | inl y ↦ rw (follows-supported c r.0 y, asked-left cs r.1 (rw y at h))
    | inr n ↦ rw (follows-unsupported c r.0 n)
  ]

  flagged-early :
      (c : Controller Facts) (cs : List (Controller Facts))
      → IsReady c
      → flagged Facts all_sum (map (λ c. follows c true) (c ∷ cs)) ≡ none
  unfolding flagged
  flagged-early c cs r = elim (Bool-cases c.supported) [
    | inl y ↦ rw (follows-supported c r y)
    | inr n ↦ rw (follows-unsupported c r n)
  ]

  asked-prepare :
      (cs : List (Controller Facts))
      → asked Facts all_sum (map begins cs) ≡ some (map own cs, map follows cs)
  unfolding asked prepare
  asked-prepare [] = refl
  asked-prepare (c ∷ cs) = rw (asked-prepare cs)

  answered-map :
      (b : Bool) (cs : List (Controller Facts))
      → answered Facts all_sum b (map follows cs) ≡ map (λ c. follows c b) cs
  unfolding answered
  answered-map b [] = refl
  answered-map b (c ∷ cs) = ap (λ ps. follows c b ∷ ps) (answered-map b cs)

  length-own : (cs : List (Controller Facts)) → length (map own cs) ≡ length cs
  length-own [] = refl
  length-own (c ∷ cs) = ap suc (length-own cs)

  -- Some ranks wait, some are at an end.
  lockstep-parted :
      (k : ℕ) (c : Controller Facts) (cs : List (Controller Facts))
      → All IsReady (c ∷ cs)
      → any (λ c. c.supported) (c ∷ cs) ≡ true
      → all (λ c. c.supported) (c ∷ cs) ≡ false
      → lockstep Facts all_sum k (map (λ c. follows c true) (c ∷ cs)) ≡ none
  unfolding lockstep
  lockstep-parted zero c cs r y n = ended-waiting (c ∷ cs) r y
  lockstep-parted (suc k) c cs r y n =
      ap₂ (unless_ended Facts all_sum) (ended-waiting (c ∷ cs) r y) (
        ap₂ (go_on_asked Facts all_sum (lockstep Facts all_sum k)) (asked-left (c ∷ cs) r n)
          (ap (go_on_flagged Facts all_sum (lockstep Facts all_sum k)) (flagged-early c cs r.0)))

  -- Where the sum over the ranks adds arrays of one shape: ranks with equal fingerprints that draft but
  -- for the runtime, of which one has a supported runtime and another one has not, never get to the
  -- end of `prepare` together, after any number of calls of `all_sum`.
  pub lockstep-prepare :
      (adds : (n : ℕ) (m : List (List ℕ)) (ms : List (List (List ℕ)))
        → All (HasShape 256 n) (m ∷ ms)
        → all_sum (m ∷ ms) ≡ total m ms)
      (n k : ℕ) (c : Controller Facts) (cs : List (Controller Facts))
      → All IsReady (c ∷ cs)
      → any (λ c. c.supported) (c ∷ cs) ≡ true
      → all (λ c. c.supported) (c ∷ cs) ≡ false
      → All (IsFingerprint 256 n) (map own (c ∷ cs))
      → All (λ g. g ≡ own c) (map own cs)
      → lockstep Facts all_sum k (map begins (c ∷ cs)) ≡ none
  unfolding lockstep ended flagged prepare
  lockstep-prepare adds n zero c cs r y m f e = refl
  lockstep-prepare adds n (suc k) c cs r y m f e =
      let yes = (rank_fingerprints_match_iff 256 all_sum adds n (own c) (map own cs) f).1 e in
      ap (λ a. go_on_asked Facts all_sum (lockstep Facts all_sum k) a none) (asked-prepare (c ∷ cs))
      ∙ ap (λ b. lockstep Facts all_sum k (answered Facts all_sum b (map follows (c ∷ cs)))) yes
      ∙ ap (lockstep Facts all_sum k) (answered-map true (c ∷ cs))
      ∙ lockstep-parted k c cs r y m
