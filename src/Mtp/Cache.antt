-- ===== src/Mtp/Cache.antt =====
-- tokenity/inference/native_mtp/cache.py: the layers of a prompt cache, and how a rejected draft is
-- taken out of them. What mlx-lm's caches do themselves is the argument `Layers`.
--
-- A layer of linear attention keeps its state after the confirmed token
-- (tokenity/inference/native_mtp/qwen.py); a rotating cache keeps one update to undo.
pub mod Rollback
use tokenity.Common.{
  ℕ, suc, ◌≡◌, Bool, true, false, if◌then◌else◌, ◌&&◌, ◌||◌, not, nat_beq, is_none, length, List,
  [], ◌∷◌, ◌++◌, Option, none, some,
}

-- The caches of mlx-lm. A store is what later reads of a cache see, a row what one token adds.
pub record Layers : Type 1 where
  pub Store : Type 0
  pub Row : Type 0
  pub update : Store → List Row → Store
  pub is_trimmable : Store → Bool
  pub trim : Store → ℕ → Store × ℕ
  pub update-append :
      (s : Store) (a b : Row) → update s (a ∷ b ∷ []) ≡ update (update s (a ∷ [])) (b ∷ [])
  pub trim-update :
      (s : Store) (a b : Row)
      → is_trimmable (update s (a ∷ b ∷ [])) ≡ true
      → trim (update s (a ∷ b ∷ [])) 1 ≡ (update s (a ∷ []), 1)

-- `xs[:1]`
abbrev pub first_row {ℓ} : {A : Type ℓ} → List A → List A
first_row [] = []
first_row (x ∷ xs) = x ∷ []

module _ (L : Layers) where
  open L use {Store, Row, update, is_trimmable, trim}

  -- `ArraysCache` with the `rollback_state` that `install` gives it
  pub record Linear : Type 0 where
    pub state : Store
    pub rollback_state : Option Store

  -- `RotatingKVCache` with `_tokenity_mtp_undo`: the fields before the update, and its rows
  pub record Rotating : Type 0 where
    pub fields : Store
    pub undo : Option (Store × List Row)

  pub data Layer : Type 0 where
    linear : Linear → Layer
    rotating : Rotating → Layer

  -- `update_and_fetch` of `_wrap_rotating`
  unfoldable pub update_and_fetch : Bool → List Row → Rotating → Rotating
  update_and_fetch armed rows r = record {
    fields = update r.fields rows;
    undo = if nat_beq (length rows) 2 && armed then some (r.fields, rows) else none;
  }

  -- `is_trimmable` of `_wrap_rotating`
  unfoldable pub may_trim : Rotating → Bool
  may_trim r = is_trimmable r.fields || not (is_none r.undo)

  abbrev pub undone : Rotating → ℕ → Rotating × ℕ
  undone r count = elim r.undo [
    | none ↦ (record r { undo = none }, 0)
    | some (snapshot, rows) ↦
        (if not (nat_beq count 1)
          then (record r { undo = none }, 0)
          else (record { fields = update snapshot (first_row rows); undo = none }, 1))
  ]

  abbrev pub trimmed : Store × ℕ → Rotating × ℕ
  trimmed (s, n) = (record { fields = s; undo = none }, n)

  -- `trim` of `_wrap_rotating`
  unfoldable pub trim_rotating : ℕ → Rotating → Rotating × ℕ
  trim_rotating count r =
      if is_trimmable r.fields then trimmed (trim r.fields count) else undone r count

  -- The update of a layer of linear attention by the rows of a chunk: with one row confirmed out of
  -- several, the state after it is kept. The lengths of a batch of several sequences, and the advance
  -- of the cache over them, are left out: there is one sequence.
  unfoldable pub update_linear : Bool → List Row → Linear → Linear
  update_linear confirmed [] l = l
  update_linear confirmed (a ∷ []) l = record l { state = update l.state (a ∷ []) }
  update_linear confirmed (a ∷ b ∷ rows) l =
      let mid = update l.state (a ∷ []) in
      if confirmed
      then record { state = update mid (b ∷ rows); rollback_state = some mid }
      else record l { state = update l.state (a ∷ b ∷ rows) }

  -- A forward pass through one layer: `armed` for the verification of a draft.
  unfoldable pub update_layer : Bool → List Row → Layer → Layer
  unfolding update_and_fetch update_linear
  update_layer armed rows (linear l) = linear (update_linear armed rows l)
  update_layer armed rows (rotating r) = rotating (update_and_fetch armed rows r)

  -- The test of the first loop of `restore_after_rejection`; an `ArraysCache` is never trimmable.
  abbrev pub can_restore : Layer → Bool
  can_restore (linear l) = not (is_none l.rollback_state)
  can_restore (rotating r) = may_trim r

  abbrev pub is_restored : Rotating × ℕ → Layer × Bool
  is_restored (r, n) = (rotating r, nat_beq n 1)

  -- One round of the second loop: the layer, and whether the loop goes on.
  unfoldable pub restore_layer : Layer → Layer × Bool
  restore_layer (linear l) = elim l.rollback_state [
    | none ↦ (linear l, false)
    | some state ↦ (linear (record { state = state; rollback_state = none }), true)
  ]
  restore_layer (rotating r) = is_restored (trim_rotating 1 r)

  abbrev pub with_rest : Layer → Bool → List Layer × Bool → List Layer → List Layer × Bool
  with_rest l true (ls, done) unchanged = (l ∷ ls, done)
  with_rest l false rest unchanged = (l ∷ unchanged, false)

  -- The second loop: it ends at the first layer that does not follow.
  unfoldable pub restore_layers : List Layer → List Layer × Bool
  unfolding restore_layer trim_rotating
  restore_layers [] = ([], true)
  restore_layers (l ∷ ls) =
      let rest = restore_layers ls in with_rest (restore_layer l).0 (restore_layer l).1 rest ls

  unfoldable pub all_restorable : List Layer → Bool
  unfolding may_trim
  all_restorable [] = true
  all_restorable (l ∷ ls) = can_restore l && all_restorable ls

  -- `restore_after_rejection`
  unfoldable pub restore_after_rejection : List Layer → List Layer × Bool
  restore_after_rejection ls = if all_restorable ls then restore_layers ls else (ls, false)

  abbrev pub cleared : Layer → Layer
  cleared (linear l) = linear (record l { rollback_state = none })
  cleared (rotating r) = rotating (record r { undo = none })

  -- `clear_rollback`
  unfoldable pub clear_rollback : List Layer → List Layer
  clear_rollback [] = []
  clear_rollback (l ∷ ls) = cleared l ∷ clear_rollback ls

  -- A forward pass of one token, or of two with the undo armed; `rows i` is what the layer `i` adds.
  unfoldable pub feed : (ℕ → Row) → ℕ → List Layer → List Layer
  feed rows i [] = []
  feed rows i (l ∷ ls) = update_layer false (rows i ∷ []) l ∷ feed rows (suc i) ls

  unfoldable pub feed_armed : (ℕ → Row) → (ℕ → Row) → ℕ → List Layer → List Layer
  feed_armed rows drafted i [] = []
  feed_armed rows drafted i (l ∷ ls) =
      update_layer true (rows i ∷ drafted i ∷ []) l ∷ feed_armed rows drafted (suc i) ls
