-- ===== src/Readiness/Tests.antt =====
-- A runtime that loads its model.
use tokenity.Common.{◌≡◌, refl, true, false, [], none, some, string_eq, arith, ◌∷◌}
use tokenity.Readiness.{ReadinessState, loading_model, ready, compiling, transition}
use tokenity.Readiness.Versions.{late_writer_refused, writes, moves}

abbrev loading : ReadinessState
loading = record {
  phase = loading_model;
  message = none;
  version = 3;
  ready_evidence = "";
  last_error = none;
  last_request = none;
  updated_at = 0;
}

moves_on : (transition compiling none (some 3) none none 5 loading).1 ≡ true
unfolding transition
moves_on = refl

late_writer_refused_example :
    transition ready none (some 3) none none 9 (
      writes
        (transition compiling none (some 3) none none 5 loading).0
        (moves ready none none none none 7 ∷ []))
    ≡ (
      writes
          (transition compiling none (some 3) none none 5 loading).0
          (moves ready none none none none 7 ∷ []),
      false,
    )
late_writer_refused_example =
    late_writer_refused loading compiling ready none none none none (some 3) none none 5 9 3
      (moves ready none none none none 7 ∷ []) moves_on (omega arith)
