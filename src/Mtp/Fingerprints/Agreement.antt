-- ===== src/Mtp/Fingerprints/Agreement.antt =====
-- `_rank_fingerprints_match` of tokenity/inference/native_mtp/runtime.py: what its sums say about the
-- fingerprints of all ranks.
use tokenity.Common.{
  ℕ, zero, suc, ◌+◌, ◌<◌, ◌≡◌, ◌↔◌, refl, ap, ap₂, ◌∙◌, sym, subst, true, false, leb, sum, all, map,
  length, get_or, List, [], ◌∷◌, All, arith,
}
use tokenity.Mtp.Fingerprints.{
  one_hot, greatest, is_unanimous, rank_fingerprints_match, added, total,
}
use tokenity.Mtp.Fingerprints.Rows.{
  length-set_one, sum-set_one, get_or-set_one, set_one_only, length-added_row, sum-added_row,
  get_or-added_row, get_or-le-sum, get_or-le-greatest, greatest-le-sum, greatest_place,
}

module _ (width : ℕ) where
  -- Rows for a fingerprint of so many bytes, added up over so many ranks.
  Summed : ℕ → ℕ → List (List ℕ) → Type 0
  Summed n world m = (length m ≡ n) × All (λ row. (length row ≡ width) × (sum row ≡ world)) m

  -- In each row the entry at the fingerprint's byte is the number of ranks.
  FullAt : ℕ → List (List ℕ) → List ℕ → Type 0
  FullAt world [] [] = Unit
  FullAt world (row ∷ m) (b ∷ g) = (get_or row b 0 ≡ world) × FullAt world m g
  FullAt world _ _ = ⊥

  -- A fingerprint: so many numbers, each the place of an entry of a row.
  unfoldable pub IsFingerprint : ℕ → List ℕ → Type 0
  IsFingerprint n f = (length f ≡ n) × All (λ b. b < width) f

  one_hot-Summed : (n : ℕ) (f : List ℕ) → IsFingerprint n f → Summed n 1 (one_hot width f)
  unfolding Summed IsFingerprint one_hot
  one_hot-Summed n [] h = (h.0, tt)
  one_hot-Summed zero (b ∷ f) h = absurd (omega (arith, h.0))
  one_hot-Summed (suc n) (b ∷ f) h =
      let (l, a) = one_hot-Summed n f (omega (arith, h.0), h.1.1) in
      (ap suc l, ((length-set_one b width, sum-set_one b width h.1.0), a))

  added-Summed :
      (n v w : ℕ) (m k : List (List ℕ)) → Summed n v m → Summed n w k → Summed n (v + w) (added m k)
  unfolding Summed
  added-Summed n v w [] [] h i = (h.0, tt)
  added-Summed n v w [] (s ∷ k) h i = absurd (omega (arith, h.0, i.0))
  added-Summed n v w (r ∷ m) [] h i = absurd (omega (arith, h.0, i.0))
  added-Summed zero v w (r ∷ m) (s ∷ k) h i = absurd (omega (arith, h.0))
  added-Summed (suc n) v w (r ∷ m) (s ∷ k) h i =
      let ((a, b), rest) = h.1 in
      let ((c, d), others) = i.1 in
      let (l, all_) =
        added-Summed n v w m k (omega (arith, h.0), rest) (omega (arith, i.0), others) in
      (
        ap suc l,
        (
          (
            length-added_row r s (a ∙ sym c) ∙ c,
            sum-added_row r s (a ∙ sym c) ∙ ap₂ (λ x y. x + y) b d,
          ),
          all_,
        ),
      )

  total-Summed :
      (n : ℕ) (f : List ℕ) (fs : List (List ℕ))
      → IsFingerprint n f
      → All (IsFingerprint n) fs
      → Summed n (suc (length fs)) (total (one_hot width f) (map (one_hot width) fs))
  total-Summed n f [] h i = one_hot-Summed n f h
  total-Summed n f (g ∷ fs) h i =
      subst (λ w. Summed n w (total (one_hot width f) (map (one_hot width) (g ∷ fs)))) (omega arith)
        (added-Summed n 1 (suc (length fs)) (one_hot width f) _ (one_hot-Summed n f h)
          (total-Summed n g fs i.0 i.1))

  one_hot-FullAt : (n : ℕ) (f : List ℕ) → IsFingerprint n f → FullAt 1 (one_hot width f) f
  unfolding FullAt IsFingerprint one_hot
  one_hot-FullAt n [] h = tt
  one_hot-FullAt zero (b ∷ f) h = absurd (omega (arith, h.0))
  one_hot-FullAt (suc n) (b ∷ f) h =
      (get_or-set_one b width h.1.0, one_hot-FullAt n f (omega (arith, h.0), h.1.1))

  FullAt-one_hot : (f g : List ℕ) → FullAt 1 (one_hot width f) g → f ≡ g
  unfolding FullAt one_hot
  FullAt-one_hot [] [] h = refl
  FullAt-one_hot [] (c ∷ g) h = absurd h
  FullAt-one_hot (b ∷ f) [] h = absurd h
  FullAt-one_hot (b ∷ f) (c ∷ g) h =
      ap₂ (λ x xs. x ∷ xs) (set_one_only b width c h.0) (FullAt-one_hot f g h.1)

  -- The entries of a sum are full where those of both parts are, and only there.
  added-FullAt :
      (n v w : ℕ) (m k : List (List ℕ)) (g : List ℕ)
      → Summed n v m
      → Summed n w k
      → FullAt (v + w) (added m k) g ↔ FullAt v m g × FullAt w k g
  unfolding Summed FullAt
  added-FullAt n v w [] [] [] h i = (λ a. (tt, tt), λ a. tt)
  added-FullAt n v w [] [] (c ∷ g) h i = (λ a. absurd a, λ a. absurd a.0)
  added-FullAt n v w [] (s ∷ k) g h i = absurd (omega (arith, h.0, i.0))
  added-FullAt n v w (r ∷ m) [] g h i = absurd (omega (arith, h.0, i.0))
  added-FullAt n v w (r ∷ m) (s ∷ k) [] h i = (λ a. absurd a, λ a. absurd a.0)
  added-FullAt zero v w (r ∷ m) (s ∷ k) (c ∷ g) h i = absurd (omega (arith, h.0))
  added-FullAt (suc n) v w (r ∷ m) (s ∷ k) (c ∷ g) h i =
      let ((a, b), rest) = h.1 in
      let ((d, e), others) = i.1 in
      let (there, back) =
        added-FullAt n v w m k g (omega (arith, h.0), rest) (omega (arith, i.0), others) in
      let entry = get_or-added_row r s c (a ∙ sym d) in
      (
        λ full.
            let (x, y) = there full.1 in
            (
              (omega (arith, full.0, entry, b, e, get_or-le-sum r c, get_or-le-sum s c), x),
              (omega (arith, full.0, entry, b, e, get_or-le-sum r c, get_or-le-sum s c), y),
            ),
        λ both. (omega (arith, entry, both.0.0, both.1.0), back (both.0.1, both.1.1)),
      )

  total-FullAt :
      (n : ℕ) (f g : List ℕ) (fs : List (List ℕ))
      → IsFingerprint n f
      → All (IsFingerprint n) fs
      → FullAt (suc (length fs)) (total (one_hot width f) (map (one_hot width) fs)) g
      → (f ≡ g) × All (λ x. x ≡ g) fs
  total-FullAt n f g [] h i full = (FullAt-one_hot f g full, tt)
  total-FullAt n f g (x ∷ fs) h i full =
      let (here, others) =
        (added-FullAt n 1 (suc (length fs)) (one_hot width f) _ g (one_hot-Summed n f h)
            (total-Summed n x fs i.0 i.1)).0
          (subst (λ w. FullAt w (total (one_hot width f) (map (one_hot width) (x ∷ fs))) g)
            (omega arith) full) in
      (FullAt-one_hot f g here, total-FullAt n x g fs i.0 i.1 others)

  FullAt-total :
      (n : ℕ) (f : List ℕ) (fs : List (List ℕ))
      → IsFingerprint n f
      → All (λ x. x ≡ f) fs
      → FullAt (suc (length fs)) (total (one_hot width f) (map (one_hot width) fs)) f
  FullAt-total n f [] h e = one_hot-FullAt n f h
  FullAt-total n f (x ∷ fs) h e =
      let same : All (IsFingerprint n) (f ∷ fs) = equal_fingerprints (f ∷ fs) (refl, e.1) in
      let both =
        (added-FullAt n 1 (suc (length fs)) (one_hot width f)
            (total (one_hot width f) (map (one_hot width) fs)) f (one_hot-Summed n f h)
            (total-Summed n f fs h same.1)).1
          (one_hot-FullAt n f h, FullAt-total n f fs h e.1) in
      subst
        (λ y.
          FullAt (suc (suc (length fs))) (total (one_hot width f) (map (one_hot width) (y ∷ fs))) f)
        (sym e.0)
        (subst (λ w. FullAt w (total (one_hot width f) (map (one_hot width) (f ∷ fs))) f)
          (omega arith) both)
    where
      equal_fingerprints : (xs : List (List ℕ)) → All (λ x. x ≡ f) xs → All (IsFingerprint n) xs
      equal_fingerprints [] a = tt
      equal_fingerprints (x ∷ xs) a =
          (subst (IsFingerprint n) (sym a.0) h, equal_fingerprints xs a.1)

  -- The bytes at which unanimous rows are full.
  unanimous-FullAt :
      (world : ℕ) (m : List (List ℕ))
      → all (λ row. is_unanimous world row) m ≡ true
      → (g : List ℕ) × FullAt world m g
  unfolding FullAt is_unanimous
  unanimous-FullAt world [] h = ([], tt)
  unanimous-FullAt world (row ∷ m) h =
      let (j, e) = greatest_place row in
      let (g, full) = unanimous-FullAt world m (ground (arith, h)) in
      let top : greatest row ≡ world = ground (arith, h) in (j ∷ g, (e ∙ top, full))

  FullAt-unanimous :
      (n world : ℕ) (m : List (List ℕ)) (g : List ℕ)
      → Summed n world m
      → FullAt world m g
      → all (λ row. is_unanimous world row) m ≡ true
  unfolding Summed FullAt is_unanimous
  FullAt-unanimous n world [] g h full = refl
  FullAt-unanimous n world (row ∷ m) [] h full = absurd full
  FullAt-unanimous zero world (row ∷ m) (b ∷ g) h full = absurd (omega (arith, h.0))
  FullAt-unanimous (suc n) world (row ∷ m) (b ∷ g) h full =
      let rest = FullAt-unanimous n world m g (omega (arith, h.0), h.1.1) full.1 in
      let top : greatest row ≡ world =
        omega (arith, full.0, h.1.0.1, get_or-le-greatest row b, greatest-le-sum row) in
      ground (arith, rest, top, h.1.0.1)

  All-same :
      (f : List ℕ) (fs : List (List ℕ)) (g : List ℕ)
      → f ≡ g
      → All (λ x. x ≡ g) fs
      → All (λ x. x ≡ f) fs
  All-same f [] g e a = tt
  All-same f (x ∷ fs) g e a = (a.0 ∙ sym e, All-same f fs g e a.1)

  -- Arrays with so many rows, each of the width.
  pub HasShape : ℕ → List (List ℕ) → Type 0
  HasShape n m = (length m ≡ n) × All (λ row. length row ≡ width) m

  one_hot-HasShape : (n : ℕ) (f : List ℕ) → IsFingerprint n f → HasShape n (one_hot width f)
  unfolding HasShape Summed
  one_hot-HasShape n f h = let (l, a) = one_hot-Summed n f h in (l, lengths (one_hot width f) a)
    where
      lengths :
          (m : List (List ℕ))
          → All (λ row. (length row ≡ width) × (sum row ≡ 1)) m
          → All (λ row. length row ≡ width) m
      lengths [] a = tt
      lengths (r ∷ m) a = (a.0.0, lengths m a.1)

  shapes :
      (n : ℕ) (fs : List (List ℕ))
      → All (IsFingerprint n) fs
      → All (HasShape n) (map (one_hot width) fs)
  shapes n [] h = tt
  shapes n (f ∷ fs) h = (one_hot-HasShape n f h.0, shapes n fs h.1)

  -- Where the sum over the ranks adds arrays of one shape entry by entry: with any number of ranks
  -- whose fingerprints have one length, the test says yes exactly where all of them are equal.
  pub rank_fingerprints_match_iff :
      (all_sum : List (List (List ℕ)) → List (List ℕ))
      (adds : (n : ℕ) (m : List (List ℕ)) (ms : List (List (List ℕ)))
        → All (HasShape n) (m ∷ ms)
        → all_sum (m ∷ ms) ≡ total m ms)
      (n : ℕ) (f : List ℕ) (fs : List (List ℕ))
      → All (IsFingerprint n) (f ∷ fs)
      → (rank_fingerprints_match (length (f ∷ fs)) (all_sum (map (one_hot width) (f ∷ fs))) ≡ true)
        ↔ All (λ g. g ≡ f) fs
  unfolding rank_fingerprints_match
  rank_fingerprints_match_iff all_sum adds n f [] h = (λ a. tt, λ a. refl)
  rank_fingerprints_match_iff all_sum adds n f (x ∷ fs) h =
      let world = suc (length (x ∷ fs)) in
      let rows = total (one_hot width f) (map (one_hot width) (x ∷ fs)) in
      let sums : all_sum (map (one_hot width) (f ∷ x ∷ fs)) ≡ rows =
        adds n (one_hot width f) (map (one_hot width) (x ∷ fs)) (shapes n (f ∷ x ∷ fs) h) in
      let several : leb world 1 ≡ false = ground arith in
      (
        λ yes.
            let (g, full) = unanimous-FullAt world rows (rw (several, sums) at yes) in
            let (first, others) = total-FullAt n f g (x ∷ fs) h.0 h.1 full in
            All-same f (x ∷ fs) g first others,
        λ same.
            rw (several, sums)
              (FullAt-unanimous n world rows f (total-Summed n f (x ∷ fs) h.0 h.1)
                (FullAt-total n f (x ∷ fs) h.0 same)),
      )
