-- ===== src/Mtp/Patch/Cluster.antt =====
-- The end of `prepare` of tokenity/inference/native_mtp/runtime.py on all ranks together: the flags
-- of the ranks are added up, and each rank keeps its patches or takes them back.
use tokenity.Common.{
  ℕ, ◌+◌, ◌≤◌, ◌≡◌, refl, Bool, true, false, if◌then◌else◌, ◌||◌, not, String, length, List, [],
  ◌∷◌, All, all, ◌<◌, none, some, arith, inl, inr, ◌⊎◌, Bool-cases,
}
use tokenity.Errors.{ok}
use tokenity.Mtp.Patch.{
  Attributes, InstalledPatch, rollback_installed, all_ranks_succeeded, conclude_install,
  prepare_patches,
}
use tokenity.Mtp.Patch.Undo.{rollback-install}

module _ (Value : Type 0) (inherited : ℕ → String → Bool) where
  -- What a rank sets, whether it got to the end without an error, and its attributes before.
  pub record Rank : Type 0 where
    pub sets : List (ℕ × String × Value)
    pub succeeded : Bool
    pub attributes : Attributes Value inherited

  -- The sum of the flags over the ranks.
  abbrev pub flags : List Rank → ℕ
  flags [] = 0
  flags (r ∷ rs) = (if r.succeeded then 1 else 0) + flags rs

  -- The rank's installed patch, which gives back the attributes of before when it is rolled back.
  pub Keeps : ℕ → ℕ → Rank → Type 0
  Keeps world_size total r =
      (p : InstalledPatch Value inherited) × (h : Attributes Value inherited) × (prepare_patches
          Value inherited world_size total r.sets r.succeeded r.attributes
        ≡ ok (some p, h))
      × (rollback_installed Value inherited p h
          ≡ ok (record p { rolled_back = true }, r.attributes))

  -- The rank raises `NativeMTPStartupError` and has the attributes of before.
  pub IsUndone : ℕ → ℕ → Rank → Type 0
  IsUndone world_size total r =
      prepare_patches Value inherited world_size total r.sets r.succeeded r.attributes
      ≡ ok (none, r.attributes)

  prepare-Keeps :
      (world_size total : ℕ) (r : Rank)
      → (not r.succeeded || not (all_ranks_succeeded world_size total r.succeeded)) ≡ false
      → Keeps world_size total r
  unfolding Keeps prepare_patches conclude_install
  prepare-Keeps world_size total r y =
      let (t, h, e, back, again, done, gone) =
        rollback-install Value inherited r.attributes r.sets in
      (record { changes = t.changes; rolled_back = false }, h, rw (e, y, done) refl, gone)

  prepare-IsUndone :
      (world_size total : ℕ) (r : Rank)
      → (not r.succeeded || not (all_ranks_succeeded world_size total r.succeeded)) ≡ true
      → IsUndone world_size total r
  unfolding IsUndone prepare_patches conclude_install
  prepare-IsUndone world_size total r n =
      let (t, h, e, back, again, done, gone) =
        rollback-install Value inherited r.attributes r.sets in
      rw (e, n, back) refl

  -- Did every rank get to the end without an error?
  abbrev pub all_succeeded : List Rank → Bool
  all_succeeded rs = all (λ r. r.succeeded) rs

  flags-le : (rs : List Rank) → flags rs ≤ length rs
  flags-le [] = omega arith
  flags-le (r ∷ rs) = elim (Bool-cases r.succeeded) [
    | inl y ↦ rw y (omega (arith, flags-le rs))
    | inr n ↦ rw n (omega (arith, flags-le rs))
  ]

  flags_full : (rs : List Rank) → all_succeeded rs ≡ true → flags rs ≡ length rs
  flags_full [] h = refl
  flags_full (r ∷ rs) h = elim (Bool-cases r.succeeded) [
    | inl y ↦ rw y (omega (arith, flags_full rs (rw y at h)))
    | inr n ↦ absurd (ground (arith, h, n))
  ]

  flags_missing : (rs : List Rank) → all_succeeded rs ≡ false → flags rs < length rs
  flags_missing [] h = absurd (ground (arith, h))
  flags_missing (r ∷ rs) h = elim (Bool-cases r.succeeded) [
    | inl y ↦ rw y (omega (arith, flags_missing rs (rw y at h)))
    | inr n ↦ rw n (omega (arith, flags-le rs))
  ]

  kept_everywhere :
      (world_size total : ℕ) (rs : List Rank)
      → total ≡ world_size
      → all_succeeded rs ≡ true
      → All (Keeps world_size total) rs
  unfolding all_ranks_succeeded
  kept_everywhere world_size total [] e h = tt
  kept_everywhere world_size total (r ∷ rs) e h =
      let (y, rest) : (r.succeeded ≡ true) × (all_succeeded rs ≡ true) =
        (ground (arith, h), ground (arith, h)) in
      (prepare-Keeps world_size total r (ground arith), kept_everywhere world_size total rs e rest)

  undo_everywhere :
      (world_size total : ℕ) (rs : List Rank)
      → total < world_size
      → 1 < world_size
      → All (IsUndone world_size total) rs
  unfolding all_ranks_succeeded
  undo_everywhere world_size total [] l m = tt
  undo_everywhere world_size total (r ∷ rs) l m =
      (prepare-IsUndone world_size total r (ground arith), undo_everywhere world_size total rs l m)

  -- For any number of ranks, each of which has set any attributes: if all of them got to the end
  -- without an error, each keeps its patches, and can take them back exactly; if one did not, every
  -- rank raises and has the attributes of before.
  pub install_everywhere :
      (rs : List Rank)
      → ((all_succeeded rs ≡ true) × All (Keeps (length rs) (flags rs)) rs)
        ⊎ ((all_succeeded rs ≡ false) × All (IsUndone (length rs) (flags rs)) rs)
  unfolding all_ranks_succeeded
  install_everywhere rs = elim (Bool-cases (all_succeeded rs)) [
    | inl y ↦ inl (y, kept_everywhere (length rs) (flags rs) rs (flags_full rs y) y)
    | inr n ↦ inr (n, undo_rest rs n)
  ]
    where
      undo_rest :
          (rs : List Rank) → all_succeeded rs ≡ false → All (IsUndone (length rs) (flags rs)) rs
      undo_rest [] h = tt
      undo_rest (r ∷ []) h = (prepare-IsUndone 1 _ r (ground (arith, h)), tt)
      undo_rest (r ∷ s ∷ rs) h =
          undo_everywhere (length (r ∷ s ∷ rs)) (flags (r ∷ s ∷ rs)) (r ∷ s ∷ rs)
            (flags_missing (r ∷ s ∷ rs) h) (omega arith)
