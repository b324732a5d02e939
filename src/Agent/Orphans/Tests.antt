-- ===== src/Agent/Orphans/Tests.antt =====
-- A server that an earlier agent has left.
use tokenity.Common.{is_part, ◌≡◌, refl, true, [], ◌∷◌, some}
use tokenity.Supervisor.Handles.{sigterm, sigkill}
use tokenity.Agent.Orphans.{
  delivered, Journaled, Table, Cleaning, Stat, runs, ps_fails, cleaned, identity_matches,
  exact_running, signal_exact, await_end, conclude, cleanup_recorded, cleanup_startup_orphan,
}
use tokenity.Agent.Orphans.Fence.{IsFenced, cleanup-IsFenced}
use tokenity.Agent.Orphans.Silence.{cleanup-silent}

abbrev left : Journaled
left = record {
  instance_id = "i-1";
  start_identity = "monday";
  resolved_path = "/models/a";
  command = "tokenity distributed-openai serve --model /models/a";
  role = "single-node-openai";
}

abbrev table : Stat → Table
table stat = record {
  process_start_identity = λ n. some "monday";
  process_command = λ n. some "tokenity distributed-openai serve --model /models/a";
  stat = λ n. stat;
  killpg = λ n. delivered;
  now = λ n. n;
}

abbrev start : Cleaning
start = record { looks = 0; signals_sent = [] }

two_signals :
    (cleanup_startup_orphan (table runs) (some left) 1 start).1.signals_sent
    ≡ (3, sigkill) ∷ (1, sigterm) ∷ []
unfolding cleanup_startup_orphan cleanup_recorded is_part signal_exact await_end conclude
    exact_running identity_matches
two_signals = refl

cleanup-IsFenced_example :
    IsFenced (table runs) left (cleanup_startup_orphan (table runs) (some left) 9 start).1
unfolding IsFenced
cleanup-IsFenced_example = cleanup-IsFenced (table runs) left 9 start tt

cleanup-silent_example :
    ((cleanup_startup_orphan (table ps_fails) (some left) 9 start).0.state ≡ cleaned)
    × ((cleanup_startup_orphan (table ps_fails) (some left) 9 start).0.drops_record ≡ true)
    × ((cleanup_startup_orphan (table ps_fails) (some left) 9 start).0.drops_instance ≡ true)
    × ((cleanup_startup_orphan (table ps_fails) (some left) 9 start).1.signals_sent ≡ [])
unfolding identity_matches is_part
cleanup-silent_example = cleanup-silent (table ps_fails) left (λ n. refl) 9 start refl
