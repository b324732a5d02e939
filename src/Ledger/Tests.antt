-- ===== src/Ledger/Tests.antt =====
-- A ledger of 1000 bytes with a tenth of headroom, and a reuse delay of 30 ticks.
use tokenity.Common.{
  ◌≤◌, ◌≡◌, ◌≢◌, refl, List, [], ◌∷◌, none, pos, lookup, insert, erase, string_eq, nat_eq, arith,
  Option,
}
use tokenity.Errors.{ok, err, resource_admission_error}
use tokenity.Ratio.{Ratio, finite}
use tokenity.Ledger.{ResourceLedger, total_of, reserve, release, usable_memory, admit}
use tokenity.Ledger.Calls.{Call, reserves, resizes, releases, snapshots, run}
use tokenity.Ledger.Budget.{Allows, run_budget}
use tokenity.Ledger.Quarantine.{quarantine_holds}

abbrev empty : ResourceLedger
empty = record {
  total_memory_bytes = 1000;
  minimum_headroom_ratio = finite (pos 100000);
  port_reuse_delay = 30;
  reservations = [];
  ports = [];
  quarantined_ports = [];
}

abbrev held : ResourceLedger
held = record empty { reservations = ("a", 400) ∷ []; ports = (9000, "a") ∷ [] }

held_lem : reserve "a" (pos 400) (9000 ∷ []) none none 0 empty ≡ (held, ok tt)
unfolding reserve admit lookup insert
held_lem = refl

too_much_refused : (reserve "b" (pos 501) [] none none 0 held).1 ≡ err resource_admission_error
unfolding reserve admit lookup insert
too_much_refused = refl

usable_900 : (value : Option Ratio) → value ≡ none → Allows 900 empty value
unfolding usable_memory
usable_900 value e u h = ground arith

abbrev calls : List Call
calls =
    reserves "a" (pos 400) (9000 ∷ []) none none 0
    ∷ reserves "b" (pos 600) [] none none 1
    ∷ resizes "a" (pos 900) none none
    ∷ releases "a" 5
    ∷ snapshots 6
    ∷ []

run_budget_example : total_of (run empty calls).reservations ≤ 900
run_budget_example =
    run_budget 900 empty calls
      (
        usable_900 none refl,
        (
          usable_900 none refl,
          (usable_900 none refl, (usable_900 none refl, (usable_900 none refl, tt))),
        ),
      )
      (omega arith)

quarantine_holds_example :
    (reserve "a"
      (pos 1)
      (9000 ∷ [])
      none
      none
      39
      (run (release "a" 10 held) (snapshots 20 ∷ releases "b" 25 ∷ []))).1
    ≢ ok tt
unfolding lookup
quarantine_holds_example =
    quarantine_holds "a" "a" (pos 1) (9000 ∷ []) none none 10 39 held
      (snapshots 20 ∷ releases "b" 25 ∷ []) 9000 refl
      ((omega arith, omega arith), ((omega arith, omega arith), tt)) (omega arith) (omega arith)
      refl

reuse_after_delay : (reserve "b" (pos 1) (9000 ∷ []) none none 40 (release "a" 10 held)).1 ≡ ok tt
unfolding reserve admit release lookup insert erase
reuse_after_delay = refl
