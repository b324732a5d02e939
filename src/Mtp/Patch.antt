-- ===== src/Mtp/Patch.antt =====
-- tokenity/inference/native_mtp/runtime.py: the transaction that records what the patches of mlx-lm
-- change, and the end of `prepare`, at which every rank keeps its patches or takes them back.
--
-- An attribute that an object has of its own is a key of its `__dict__`; `inherited` says what
-- `hasattr` finds beyond that. Assigning never raises, as for the classes that are patched.
pub mod Undo
pub mod Cluster
mod Tests
use tokenity.Common.{
  ℕ, suc, ◌≡◌, Bool, true, false, if◌then◌else◌, ◌&&◌, ◌||◌, not, nat_beq, leb, ◌==◌, string_eq,
  String, List, [], ◌∷◌, ◌++◌, Option, none, some, is_none,
}
use tokenity.Errors.{
  Result, ok, err, runtime_error, attribute_error, native_mtp_startup_error, ◌>>=◌, ◌>>◌, raise_if,
}

abbrev pub is_same : ℕ → String → ℕ → String → Bool
is_same owner name owner' name' = nat_beq owner' owner && (name' == name)

-- `_all_ranks_succeeded`, from the sum of the ranks' flags
unfoldable pub all_ranks_succeeded : ℕ → ℕ → Bool → Bool
all_ranks_succeeded world_size total local_success =
    if leb world_size 1 then local_success else nat_beq total world_size

module _ (Value : Type 0) (inherited : ℕ → String → Bool) where
  -- The attributes that objects have of their own.
  abbrev pub Attributes : Type 0
  Attributes = ℕ → String → Option Value

  abbrev pub changed : ℕ → String → Option Value → Attributes → Attributes
  changed owner name o h owner' name' =
      if is_same owner name owner' name' then o else h owner' name'

  abbrev pub setattr : ℕ → String → Value → Attributes → Attributes
  setattr owner name value h = changed owner name (some value) h

  -- `delattr` raises where the attribute is not the object's own.
  abbrev pub delattr : ℕ → String → Attributes → Result Attributes
  delattr owner name h =
      if is_none (h owner name) then err attribute_error else ok (changed owner name none h)

  abbrev pub hasattr : ℕ → String → Attributes → Bool
  hasattr owner name h = not (is_none (h owner name)) || inherited owner name

  -- An entry of `_changes`: `previous` is what the object had of its own, `none` where not `existed`.
  pub record Change : Type 0 where
    pub owner : ℕ
    pub name : String
    pub previous : Option Value

  -- `PatchTransaction`
  pub record PatchTransaction : Type 0 where
    pub changes : List Change
    pub closed : Bool

  -- `InstalledPatch`
  pub record InstalledPatch : Type 0 where
    pub changes : List Change
    pub rolled_back : Bool

  -- `PatchTransaction.set`
  unfoldable pub set :
      ℕ → String → Value → PatchTransaction → Attributes → Result (PatchTransaction × Attributes)
  set owner name value t h = do
    raise_if t.closed runtime_error
    ok (
      record t {
        changes = t.changes ++ record { owner = owner; name = name; previous = h owner name } ∷ [];
      },
      setattr owner name value h,
    )

  -- One round of the loop of both `rollback`s.
  unfoldable pub undo_change : Change → Attributes → Result Attributes
  undo_change c h = elim c.previous [
    | some value ↦ ok (setattr c.owner c.name value h)
    | none ↦ if hasattr c.owner c.name h then delattr c.owner c.name h else ok h
  ]

  -- The loop, over the changes in reverse.
  unfoldable pub undo_all : List Change → Attributes → Result Attributes
  unfolding undo_change
  undo_all [] h = ok h
  undo_all (c ∷ cs) h = undo_all cs h >>= undo_change c

  -- `PatchTransaction.rollback`
  unfoldable pub rollback : PatchTransaction → Attributes → Result (PatchTransaction × Attributes)
  rollback t h =
      if t.closed
      then ok (t, h)
      else (undo_all t.changes h >>= λ h'. ok (record t { closed = true }, h'))

  -- `PatchTransaction.commit`
  unfoldable pub commit : PatchTransaction → Result (PatchTransaction × InstalledPatch)
  commit t = do
    raise_if t.closed runtime_error
    ok (record t { closed = true }, record { changes = t.changes; rolled_back = false })

  -- `InstalledPatch.rollback`
  unfoldable pub rollback_installed :
      InstalledPatch → Attributes → Result (InstalledPatch × Attributes)
  rollback_installed p h =
      if p.rolled_back
      then ok (p, h)
      else (undo_all p.changes h >>= λ h'. ok (record p { rolled_back = true }, h'))

  -- What the patches set in turn, before they end or raise.
  unfoldable pub install :
      List (ℕ × String × Value)
      → PatchTransaction
      → Attributes
      → Result (PatchTransaction × Attributes)
  unfolding set
  install [] t h = ok (t, h)
  install ((owner, name, value) ∷ sets) t h =
      set owner name value t h >>= λ (t', h'). install sets t' h'

  abbrev pub new_transaction : PatchTransaction
  new_transaction = record { changes = []; closed = false }

  -- The end of `prepare`: the patch that stays installed, or none where `NativeMTPStartupError` is
  -- raised, with the attributes as they are then.
  unfoldable pub conclude_install :
      ℕ → ℕ → Bool → PatchTransaction → Attributes → Result (Option InstalledPatch × Attributes)
  unfolding all_ranks_succeeded rollback commit
  conclude_install world_size total local_success t h =
      if not local_success || not (all_ranks_succeeded world_size total local_success)
      then (rollback t h >>= λ (t', h'). ok (none, h'))
      else (commit t >>= λ (t', p). ok (some p, h))

  -- The installation of `prepare` on one rank.
  unfoldable pub prepare_patches :
      ℕ
      → ℕ
      → List (ℕ × String × Value)
      → Bool
      → Attributes
      → Result (Option InstalledPatch × Attributes)
  unfolding install conclude_install
  prepare_patches world_size total sets local_success h = do
    (t, h') ← install sets new_transaction h
    conclude_install world_size total local_success t h'
