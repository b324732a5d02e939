-- ===== src/Agent/Orphans/Silence.antt =====
-- `cleanup_startup_orphan` of tokenity/node_agent/agent.py where `ps` does not answer.
use tokenity.Common.{
  ℕ, not, ◌==◌, string_eq, some, zero, suc, ◌+◌, ◌≡◌, refl, ◌∙◌, ap, true, false, arith,
}
use tokenity.Supervisor.Handles.{Signal, sigterm, sigkill}
use tokenity.Agent.Orphans.{
  Journaled, Table, Cleaning, cleaned, ps_fails, looked, identity_matches, exact_running,
  signal_exact, await_end, conclude, cleanup_recorded, cleanup_startup_orphan,
}

module _ (table : Table) (j : Journaled) (silent : (n : ℕ) → table.stat n ≡ ps_fails) where
  none_runs : (n : ℕ) → exact_running table j n ≡ false
  unfolding exact_running
  none_runs n = ground (arith, silent n)

  signal_exact-silent : (signal : Signal) (s : Cleaning) → signal_exact table j signal s ≡ looked s
  unfolding signal_exact
  signal_exact-silent signal s = rw (none_runs s.looks) refl

  await_end-silent :
      (deadline fuel : ℕ) (s : Cleaning)
      → (await_end table j deadline fuel s).signals_sent ≡ s.signals_sent
  unfolding await_end
  await_end-silent deadline zero s = refl
  await_end-silent deadline (suc fuel) s = rw (none_runs s.looks) refl

  conclude-silent :
      (s : Cleaning)
      → ((conclude table j s).0.state ≡ cleaned)
        × ((conclude table j s).0.drops_record ≡ true)
        × ((conclude table j s).0.drops_instance ≡ not (j.instance_id == ""))
        × ((conclude table j s).1.signals_sent ≡ s.signals_sent)
  unfolding conclude
  conclude-silent s = rw (none_runs s.looks) (refl, refl, refl, refl)

  -- Where `ps` fails at every look: a clean-up that finds the identity of the process at the first look
  -- reports it as cleaned, drops its record and, where the instance has an id, what is stored of it, and
  -- has sent no signal.
  pub cleanup-silent :
      (fuel : ℕ) (s : Cleaning)
      → identity_matches table j s.looks ≡ true
      → ((cleanup_startup_orphan table (some j) fuel s).0.state ≡ cleaned)
        × ((cleanup_startup_orphan table (some j) fuel s).0.drops_record ≡ true)
        × ((cleanup_startup_orphan table (some j) fuel s).0.drops_instance
            ≡ not (j.instance_id == ""))
        × ((cleanup_startup_orphan table (some j) fuel s).1.signals_sent ≡ s.signals_sent)
  unfolding cleanup_startup_orphan cleanup_recorded
  cleanup-silent fuel s y =
      let t = signal_exact table j sigterm (looked s) in
      let u = await_end table j (table.now t.looks + 3000) fuel t in
      let (a, b, d, c) = conclude-silent (signal_exact table j sigkill u) in
      rw y (
        a,
        b,
        d,
        c
            ∙ ap (λ x. x.signals_sent) (signal_exact-silent sigkill u)
            ∙ await_end-silent (table.now t.looks + 3000) fuel t
            ∙ ap (λ x. x.signals_sent) (signal_exact-silent sigterm (looked s)),
      )
