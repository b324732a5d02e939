-- ===== src/Mtp/Cache/Rollback.antt =====
-- Taking back a rejected draft, tokenity/inference/native_mtp/cache.py: after it, and after a
-- draft that is kept, the layers are those of a plain run.
use tokenity.Common.{
  ℕ, suc, ◌≡◌, refl, ap₂, true, false, List, [], ◌∷◌, none, arith, Bool-cases, inl, inr,
}
use tokenity.Mtp.Cache.{
  Layers, Layer, linear, rotating, update_layer, update_linear, update_and_fetch, may_trim,
  trim_rotating, restore_layer, restore_layers, all_restorable, restore_after_rejection,
  clear_rollback, feed, feed_armed, can_restore, cleared,
}

module _ (L : Layers) where
  open L use {Row, Store, update, is_trimmable}

  -- Nothing is kept to undo.
  abbrev pub IsClean : List (Layer L) → Type 0
  IsClean [] = Unit
  IsClean (linear l ∷ ls) = (l.rollback_state ≡ none) × IsClean ls
  IsClean (rotating r ∷ ls) = (r.undo ≡ none) × IsClean ls

  can_restore-armed :
      (a b : Row) (l : Layer L) → can_restore L (update_layer L true (a ∷ b ∷ []) l) ≡ true
  unfolding update_layer may_trim update_linear
  can_restore-armed a b (linear l) = refl
  can_restore-armed a b (rotating r) = ground arith

  restore-armed :
      (a b : Row) (l : Layer L)
      → IsClean (l ∷ [])
      → restore_layer L (update_layer L true (a ∷ b ∷ []) l)
        ≡ (update_layer L false (a ∷ []) l, true)
  unfolding update_layer restore_layer trim_rotating
  restore-armed a b (linear l) h = rw (h.0) refl
  restore-armed a b (rotating r) h =
      elim (Bool-cases (is_trimmable (update r.fields (a ∷ b ∷ [])))) [
        | inl e ↦ ground (arith, e, L.trim-update r.fields a b)
        | inr e ↦ ground (arith, e)
      ]

  clear-armed :
      (a b : Row) (l : Layer L)
      → IsClean (l ∷ [])
      → cleared L (update_layer L true (a ∷ b ∷ []) l)
        ≡ update_layer L false (b ∷ []) (update_layer L false (a ∷ []) l)
  unfolding update_layer update_and_fetch
  clear-armed a b (linear l) h = rw (h.0) refl
  clear-armed a b (rotating r) h = ground (arith, L.update-append r.fields a b)

  IsClean-head :
      (l : Layer L) (ls : List (Layer L)) → IsClean (l ∷ ls) → IsClean (l ∷ []) × IsClean ls
  IsClean-head (linear l) ls h = ((h.0, tt), h.1)
  IsClean-head (rotating r) ls h = ((h.0, tt), h.1)

  pub feed-IsClean :
      (f : ℕ → Row) (i : ℕ) (ls : List (Layer L)) → IsClean ls → IsClean (feed L f i ls)
  unfolding feed update_layer
  feed-IsClean f i [] h = tt
  feed-IsClean f i (linear l ∷ ls) h = (h.0, feed-IsClean f (suc i) ls h.1)
  feed-IsClean f i (rotating r ∷ ls) h = (ground arith, feed-IsClean f (suc i) ls h.1)

  all_restorable-feed_armed :
      (f g : ℕ → Row) (i : ℕ) (ls : List (Layer L))
      → all_restorable L (feed_armed L f g i ls) ≡ true
  unfolding all_restorable feed_armed
  all_restorable-feed_armed f g i [] = refl
  all_restorable-feed_armed f g i (l ∷ ls) =
      rw (can_restore-armed (f i) (g i) l) (all_restorable-feed_armed f g (suc i) ls)

  restore_layers-feed_armed :
      (f g : ℕ → Row) (i : ℕ) (ls : List (Layer L))
      → IsClean ls
      → restore_layers L (feed_armed L f g i ls) ≡ (feed L f i ls, true)
  unfolding restore_layers feed_armed feed
  restore_layers-feed_armed f g i [] h = refl
  restore_layers-feed_armed f g i (l ∷ ls) h =
      let (here, later) = IsClean-head l ls h in
      rw (restore-armed (f i) (g i) l here, restore_layers-feed_armed f g (suc i) ls later) refl

  -- After a pass over a token and its draft, with the undo armed and nothing left to undo before,
  -- taking back the draft succeeds and leaves every layer as after the token alone.
  pub restore-feed_armed :
      (f g : ℕ → Row) (ls : List (Layer L))
      → IsClean ls
      → restore_after_rejection L (feed_armed L f g 0 ls) ≡ (feed L f 0 ls, true)
  unfolding restore_after_rejection
  restore-feed_armed f g ls h =
      rw (all_restorable-feed_armed f g 0 ls) (restore_layers-feed_armed f g 0 ls h)

  clear-feed_from :
      (f g : ℕ → Row) (i : ℕ) (ls : List (Layer L))
      → IsClean ls
      → clear_rollback L (feed_armed L f g i ls) ≡ feed L g i (feed L f i ls)
  unfolding clear_rollback feed_armed feed
  clear-feed_from f g i [] h = refl
  clear-feed_from f g i (l ∷ ls) h =
      let (here, later) = IsClean-head l ls h in
      ap₂ ◌∷◌ (clear-armed (f i) (g i) l here) (clear-feed_from f g (suc i) ls later)

  -- Keeping the draft and clearing what could undo it leaves every layer as after a pass over the
  -- token and one over the draft.
  pub clear-feed_armed :
      (f g : ℕ → Row) (ls : List (Layer L))
      → IsClean ls
      → clear_rollback L (feed_armed L f g 0 ls) ≡ feed L g 0 (feed L f 0 ls)
  clear-feed_armed f g ls h = clear-feed_from f g 0 ls h

  -- Where some layer has nothing to take back, no layer is changed and the answer is false.
  pub restore_refused :
      (ls : List (Layer L))
      → all_restorable L ls ≡ false
      → restore_after_rejection L ls ≡ (ls, false)
  unfolding restore_after_rejection
  restore_refused ls h = rw h refl
