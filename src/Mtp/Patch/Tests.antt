-- ===== src/Mtp/Patch/Tests.antt =====
-- Two classes with attributes that are numbers; an attribute is set twice, another one is new.
use tokenity.Common.{
  ℕ, ◌≡◌, Bool, true, false, String, ◌==◌, string_eq, List, [], ◌∷◌, none, some, if◌then◌else◌,
  ◌&&◌, nat_beq, All, ◌⊎◌, length,
}
use tokenity.Errors.{ok}
use tokenity.Mtp.Patch.{
  Attributes, PatchTransaction, install, rollback, commit, rollback_installed, new_transaction,
}
use tokenity.Mtp.Patch.Undo.{rollback-install}
use tokenity.Mtp.Patch.Cluster.{Rank, Keeps, IsUndone, flags, all_succeeded, install_everywhere}

abbrev inherited : ℕ → String → Bool
inherited owner name = name == "update_and_fetch"

abbrev before : Attributes ℕ inherited
before owner name = if nat_beq owner 1 && (name == "trim") then some 5 else none

abbrev sets : List (ℕ × String × ℕ)
sets = (1, "trim", 6) ∷ (1, "undo", 7) ∷ (2, "update_and_fetch", 8) ∷ (1, "undo", 9) ∷ []

rollback-install_example :
    (t : PatchTransaction ℕ inherited) × (h' : Attributes ℕ inherited) × (install ℕ inherited sets
        (new_transaction ℕ inherited)
        before
      ≡ ok (t, h'))
    × (rollback ℕ inherited t h' ≡ ok (record t { closed = true }, before))
    × (rollback ℕ inherited (record t { closed = true }) before
        ≡ ok (record t { closed = true }, before))
    × (commit ℕ inherited t
        ≡ ok (record t { closed = true }, record { changes = t.changes; rolled_back = false }))
    × (rollback_installed ℕ inherited (record { changes = t.changes; rolled_back = false }) h'
        ≡ ok (record { changes = t.changes; rolled_back = true }, before))
rollback-install_example = rollback-install ℕ inherited before sets

-- One of the ranks raises after its first assignment.
abbrev ranks : List (Rank ℕ inherited)
ranks =
    record { sets = sets; succeeded = true; attributes = before }
    ∷ record { sets = (1, "trim", 6) ∷ []; succeeded = false; attributes = before }
    ∷ []

install_everywhere_example :
    ((all_succeeded ℕ inherited ranks ≡ true)
      × All (Keeps ℕ inherited (length ranks) (flags ℕ inherited ranks)) ranks)
    ⊎ ((all_succeeded ℕ inherited ranks ≡ false)
        × All (IsUndone ℕ inherited (length ranks) (flags ℕ inherited ranks)) ranks)
install_everywhere_example = install_everywhere ℕ inherited ranks
