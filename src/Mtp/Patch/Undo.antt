-- ===== src/Mtp/Patch/Undo.antt =====
-- tokenity/inference/native_mtp/runtime.py: taking back recorded changes gives back the attributes.
use tokenity.Common.{
  ℕ, ◌≡◌, refl, sym, ap, ◌∙◌, Bool, true, false, nat_beq, nat_beq_iff, ◌==◌, eq_iff, string_eq,
  String, List, [], ◌∷◌, ◌++◌, Option, none, some, arith, inl, inr, Bool-cases,
}
use tokenity.Errors.{Result, ok, err, ◌>>=◌}
use tokenity.Mtp.Patch.{
  is_same, Attributes, changed, setattr, Change, PatchTransaction, set, undo_change, undo_all,
  rollback, commit, rollback_installed, install, new_transaction,
}

right_unit : {A : Type 0} (m : Result A) → m ≡ m >>= (λ a. ok a)
right_unit (ok a) = refl
right_unit (err e) = refl

assoc :
    {A B C : Type 0} (m : Result A) (f : A → Result B) (g : B → Result C)
    → (m >>= f) >>= g ≡ m >>= (λ a. f a >>= g)
assoc (ok a) f g = refl
assoc (err e) f g = refl

module _ (Value : Type 0) (inherited : ℕ → String → Bool) where
  is_same_refl : (o : ℕ) (n : String) → is_same o n o n ≡ true
  is_same_refl o n = rw ((nat_beq_iff o o).1 refl, (eq_iff n n).1 refl)

  is_same-eq :
      (h : Attributes Value inherited) (o o' : ℕ) (n n' : String)
      → is_same o n o' n' ≡ true
      → h o' n' ≡ h o n
  is_same-eq h o o' n n' e =
      let same_owner : nat_beq o' o ≡ true = ground (arith, e) in
      let same_name : (n' == n) ≡ true = ground (arith, e) in
      ap (λ k. h k n') ((nat_beq_iff o' o).0 same_owner) ∙ ap (h o) ((eq_iff n' n).0 same_name)

  changed-back :
      (o : ℕ) (n : String) (v w : Option Value) (h : Attributes Value inherited)
      → h o n ≡ w
      → changed Value inherited o n w (changed Value inherited o n v h) ≡ h
  changed-back o n v w h e = λ i o' n'. at o' n' i
    where
      at :
          (o' : ℕ) (n' : String)
          → changed Value inherited o n w (changed Value inherited o n v h) o' n' ≡ h o' n'
      at o' n' = elim (Bool-cases (is_same o n o' n')) [
        | inl y ↦ rw (y, is_same-eq h o o' n n' y) (sym e)
        | inr m ↦ rw m
      ]

  -- Undoing the change that an assignment recorded.
  undo_change-set :
      (o : ℕ) (n : String) (v : Value) (w : Option Value) (h : Attributes Value inherited)
      → h o n ≡ w
      → undo_change Value inherited
          (record { owner = o; name = n; previous = w })
          (setattr Value inherited o n v h)
        ≡ ok h
  unfolding undo_change
  undo_change-set o n v none h e =
      rw (is_same_refl o n) (ap ok (changed-back o n (some v) none h e))
  undo_change-set o n v (some u) h e = ap ok (changed-back o n (some v) (some u) h e)

  undo_all-append :
      (cs : List (Change Value inherited)) (c : Change Value inherited)
      (h : Attributes Value inherited)
      → undo_all Value inherited (cs ++ c ∷ []) h
        ≡ undo_change Value inherited c h >>= undo_all Value inherited cs
  unfolding undo_all
  undo_all-append [] c h = right_unit (undo_change Value inherited c h)
  undo_all-append (d ∷ cs) c h =
      ap (λ m. m >>= undo_change Value inherited d) (undo_all-append cs c h)
      ∙ assoc (undo_change Value inherited c h) (undo_all Value inherited cs)
          (undo_change Value inherited d)

  -- A transaction that is open, and whose changes lead back to some attributes.
  pub LeadsTo :
      Attributes Value inherited
      → PatchTransaction Value inherited
      → Attributes Value inherited
      → Type 0
  LeadsTo h0 t h = (t.closed ≡ false) × (undo_all Value inherited t.changes h ≡ ok h0)

  set-LeadsTo :
      (h0 h : Attributes Value inherited) (t : PatchTransaction Value inherited) (o : ℕ)
      (n : String) (v : Value)
      → LeadsTo h0 t h
      → (t' : PatchTransaction Value inherited) × (h' : Attributes Value inherited) × (set Value
            inherited o n v t h
          ≡ ok (t', h'))
        × LeadsTo h0 t' h'
  unfolding set LeadsTo
  set-LeadsTo h0 h t o n v (open_, back) = (
    record t { changes = t.changes ++ record { owner = o; name = n; previous = h o n } ∷ [] },
    setattr Value inherited o n v h,
    rw open_,
    (
      open_,
      undo_all-append t.changes (record { owner = o; name = n; previous = h o n })
            (setattr Value inherited o n v h)
          ∙ rw (undo_change-set o n v (h o n) h refl) back,
    ),
  )

  install-LeadsTo :
      (h0 h : Attributes Value inherited) (t : PatchTransaction Value inherited)
      (sets : List (ℕ × String × Value))
      → LeadsTo h0 t h
      → (t' : PatchTransaction Value inherited) × (h' : Attributes Value inherited) × (install Value
            inherited sets t h
          ≡ ok (t', h'))
        × LeadsTo h0 t' h'
  unfolding install
  install-LeadsTo h0 h t [] l = (t, h, refl, l)
  install-LeadsTo h0 h t ((o, n, v) ∷ sets) l =
      let (t1, h1, e1, l1) = set-LeadsTo h0 h t o n v l in
      let (t2, h2, e2, l2) = install-LeadsTo h0 h1 t1 sets l1 in (t2, h2, rw e1 e2, l2)

  -- Whatever is set through a new transaction, the same attribute several times or not, nothing is
  -- raised; rolling the transaction back, or committing it and rolling the patch back, gives exactly
  -- the attributes of before, and a second rollback changes nothing.
  pub rollback-install :
      (h : Attributes Value inherited) (sets : List (ℕ × String × Value))
      → (t : PatchTransaction Value inherited) × (h' : Attributes Value inherited) × (install Value
            inherited sets
            (new_transaction Value inherited)
            h
          ≡ ok (t, h'))
        × (rollback Value inherited t h' ≡ ok (record t { closed = true }, h))
        × (rollback Value inherited (record t { closed = true }) h
            ≡ ok (record t { closed = true }, h))
        × (commit Value inherited t
            ≡ ok (record t { closed = true }, record { changes = t.changes; rolled_back = false }))
        × (rollback_installed Value inherited
              (record { changes = t.changes; rolled_back = false })
              h'
            ≡ ok (record { changes = t.changes; rolled_back = true }, h))
  unfolding LeadsTo undo_all rollback commit rollback_installed
  rollback-install h sets =
      let (t, h', e, (open_, back)) =
        install-LeadsTo h h (new_transaction Value inherited) sets (refl, refl) in
      (t, h', e, rw (open_, back), refl, rw open_, rw back)
