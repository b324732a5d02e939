-- ===== src/Serving/Load.antt =====
-- `_parameter_eval_chunks` of tokenity/serving/distributed_openai.py: the groups of parameters that
-- are evaluated together while a model is loaded.
pub mod Chunks
use tokenity.Common.{
  ℕ, ◌+◌, Bool, true, false, if◌then◌else◌, ◌&&◌, ◌||◌, not, leb, ltb, length, List, [], ◌∷◌, ◌++◌,
  Option, none, some, or_default,
}

-- `_LoadEvalPolicy`, as far as the groups depend on it.
pub record LoadEvalPolicy : Type 0 where
  pub max_leaves : ℕ
  pub target_bytes : Option ℕ

-- A parameter and the size that `_array_nbytes` finds.
module _ (Parameter : Type 0) (array_nbytes : Parameter → Option ℕ) where
  abbrev pub parameter_bytes : Parameter → ℕ
  parameter_bytes p = or_default (array_nbytes p) 0

  abbrev pub is_empty : List Parameter → Bool
  is_empty [] = true
  is_empty (p ∷ ps) = false

  unfoldable pub exceeds_byte_limit : LoadEvalPolicy → List Parameter → ℕ → Parameter → Bool
  exceeds_byte_limit policy chunk chunk_bytes p = elim policy.target_bytes [
    | none ↦ false
    | some target ↦ not (is_empty chunk) && ltb target (chunk_bytes + parameter_bytes p)
  ]

  unfoldable pub exceeds : LoadEvalPolicy → List Parameter → ℕ → Parameter → Bool
  unfolding exceeds_byte_limit
  exceeds policy chunk chunk_bytes p =
      leb policy.max_leaves (length chunk) || exceeds_byte_limit policy chunk chunk_bytes p

  -- The loop, with the group that it has begun and its size.
  unfoldable pub chunks_from :
      LoadEvalPolicy → List Parameter → ℕ → List Parameter → List (List Parameter)
  unfolding exceeds
  chunks_from policy chunk chunk_bytes [] = if is_empty chunk then [] else chunk ∷ []
  chunks_from policy chunk chunk_bytes (p ∷ ps) =
      let full = exceeds policy chunk chunk_bytes p in
      let rest =
        chunks_from policy ((if full then [] else chunk) ++ p ∷ [])
          ((if full then 0 else chunk_bytes) + parameter_bytes p) ps in
      if full then chunk ∷ rest else rest

  -- `_parameter_eval_chunks`
  unfoldable pub parameter_eval_chunks : List Parameter → LoadEvalPolicy → List (List Parameter)
  unfolding chunks_from
  parameter_eval_chunks parameters policy = chunks_from policy [] 0 parameters
