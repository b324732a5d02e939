-- ===== src/Serving/Load/Chunks.antt =====
-- The groups of `_parameter_eval_chunks` of tokenity/serving/distributed_openai.py: all parameters in
-- their order, within the limits.
use tokenity.Common.{
  ℕ, ◌+◌, ◌≤◌, ◌<◌, ◌≡◌, refl, subst, ◌∙◌, ap, true, false, if◌then◌else◌, ltb, length, List, [],
  ◌∷◌, ◌++◌, All, Option, none, some, arith, inl, inr, ◌⊎◌, Bool-cases, Option-cases, length-append,
}
use tokenity.Serving.Load.{
  LoadEvalPolicy, parameter_bytes, is_empty, exceeds_byte_limit, exceeds, chunks_from,
  parameter_eval_chunks,
}

module _ (Parameter : Type 0) (array_nbytes : Parameter → Option ℕ) where
  abbrev pub bytes : List Parameter → ℕ
  bytes [] = 0
  bytes (p ∷ ps) = parameter_bytes Parameter array_nbytes p + bytes ps

  abbrev pub concat : List (List Parameter) → List Parameter
  concat [] = []
  concat (c ∷ cs) = c ++ concat cs

  abbrev pub WithinTarget : Option ℕ → ℕ → Type 0
  WithinTarget none n = Unit {0}
  WithinTarget (some target) n = n ≤ target

  -- At least one parameter, at most the limit of leaves, and either one alone or within the bytes.
  unfoldable pub Fits : LoadEvalPolicy → List Parameter → Type 0
  Fits policy c =
      (0 < length c)
      × (length c ≤ policy.max_leaves)
      × ((length c ≡ 1) ⊎ WithinTarget policy.target_bytes (bytes c))

  append_assoc : (xs ys zs : List Parameter) → (xs ++ ys) ++ zs ≡ xs ++ (ys ++ zs)
  append_assoc [] ys zs = refl
  append_assoc (x ∷ xs) ys zs = ap (λ r. x ∷ r) (append_assoc xs ys zs)

  bytes-append :
      (xs : List Parameter) (p : Parameter)
      → bytes (xs ++ p ∷ []) ≡ bytes xs + parameter_bytes Parameter array_nbytes p
  bytes-append [] p = omega arith
  bytes-append (x ∷ xs) p = omega (arith, bytes-append xs p)

  concat-chunks_from :
      (policy : LoadEvalPolicy) (chunk : List Parameter) (n : ℕ) (ps : List Parameter)
      → concat (chunks_from Parameter array_nbytes policy chunk n ps) ≡ chunk ++ ps
  unfolding chunks_from
  concat-chunks_from policy [] n [] = refl
  concat-chunks_from policy (x ∷ chunk) n [] = refl
  concat-chunks_from policy chunk n (p ∷ ps) =
      elim (Bool-cases (exceeds Parameter array_nbytes policy chunk n p)) [
        | inl y ↦ rw y (ap (λ r. chunk ++ r) (concat-chunks_from policy (p ∷ []) _ ps))
        | inr m ↦
            rw m (concat-chunks_from policy (chunk ++ p ∷ []) _ ps ∙ append_assoc chunk (p ∷ []) ps)
      ]

  Fits-single :
      (policy : LoadEvalPolicy) (p : Parameter) → 0 < policy.max_leaves → Fits policy (p ∷ [])
  unfolding Fits
  Fits-single policy p h = (omega arith, omega arith, inl refl)

  -- A group that is not full takes one more parameter.
  Fits-append :
      (policy : LoadEvalPolicy) (chunk : List Parameter) (p : Parameter)
      → 0 < policy.max_leaves
      → exceeds Parameter array_nbytes policy chunk (bytes chunk) p ≡ false
      → Fits policy (chunk ++ p ∷ [])
  unfolding Fits exceeds exceeds_byte_limit
  Fits-append policy [] p h e = Fits-single policy p h
  Fits-append policy (x ∷ chunk) p h e = (
    omega arith,
    ground (arith, e, length-append chunk (p ∷ [])),
    inr (target policy.target_bytes (ground (arith, e))),
  )
    where
      target :
          (t : Option ℕ)
          → (elim t [
            | none ↦ false
            | some target ↦
                ltb target (bytes (x ∷ chunk) + parameter_bytes Parameter array_nbytes p)
          ])
            ≡ false
          → WithinTarget t (bytes (x ∷ (chunk ++ p ∷ [])))
      target none g = tt
      target (some t) g = ground (arith, g, bytes-append chunk p)

  exceeds-nothing :
      (policy : LoadEvalPolicy) (n : ℕ) (p : Parameter)
      → 0 < policy.max_leaves
      → exceeds Parameter array_nbytes policy [] n p ≡ false
  unfolding exceeds exceeds_byte_limit
  exceeds-nothing policy n p h = elim (Option-cases policy.target_bytes) [
    | inl e ↦ rw e (ground arith)
    | inr (t, e) ↦ rw e (ground arith)
  ]

  chunks_from-Fits :
      (policy : LoadEvalPolicy) (chunk : List Parameter) (n : ℕ) (ps : List Parameter)
      → 0 < policy.max_leaves
      → n ≡ bytes chunk
      → (chunk ≡ []) ⊎ Fits policy chunk
      → All (Fits policy) (chunks_from Parameter array_nbytes policy chunk n ps)
  unfolding chunks_from
  chunks_from-Fits policy chunk n [] h e f = last chunk f
    where
      last :
          (chunk : List Parameter)
          → (chunk ≡ []) ⊎ Fits policy chunk
          → All (Fits policy) (if is_empty Parameter array_nbytes chunk then [] else chunk ∷ [])
      last [] f = tt
      last (x ∷ xs) (inl g) = absurd (ground (arith, ap (λ (c : List Parameter). length c) g))
      last (x ∷ xs) (inr g) = (g, tt)
  chunks_from-Fits policy chunk n (p ∷ ps) h e f =
      elim (Bool-cases (exceeds Parameter array_nbytes policy chunk n p)) [
        | inl y ↦ rw y (
          full y f,
          chunks_from-Fits policy (p ∷ []) _ ps h (omega arith) (inr (Fits-single policy p h)),
        )
        | inr m ↦ rw m (
            chunks_from-Fits policy (chunk ++ p ∷ []) _ ps h
              (omega (arith, e, bytes-append chunk p))
              (inr (
                Fits-append policy chunk p h
                  (subst (λ k. exceeds Parameter array_nbytes policy chunk k p ≡ false) e m))))
      ]
    where
      full :
          exceeds Parameter array_nbytes policy chunk n p ≡ true
          → (chunk ≡ []) ⊎ Fits policy chunk
          → Fits policy chunk
      full y (inr g) = g
      full y (inl g) = absurd (
          ground (
            arith,
            subst (λ c. exceeds Parameter array_nbytes policy c n p ≡ true) g y,
            exceeds-nothing policy n p h,
          ))

  -- With a limit of at least one leaf, as the policies have it: the groups in turn are the parameters
  -- in their order, and each group has at least one parameter, at most as many as the limit, and is
  -- one parameter alone or within the target of bytes.
  pub parameter_eval_chunks-Fits :
      (ps : List Parameter) (policy : LoadEvalPolicy)
      → 0 < policy.max_leaves
      → (concat (parameter_eval_chunks Parameter array_nbytes ps policy) ≡ ps)
        × All (Fits policy) (parameter_eval_chunks Parameter array_nbytes ps policy)
  unfolding parameter_eval_chunks
  parameter_eval_chunks-Fits ps policy h =
      (concat-chunks_from policy [] 0 ps, chunks_from-Fits policy [] 0 ps h refl (inl refl))
