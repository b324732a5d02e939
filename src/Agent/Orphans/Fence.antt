-- ===== src/Agent/Orphans/Fence.antt =====
-- Whom `cleanup_startup_orphan` of tokenity/node_agent/agent.py signals.
use tokenity.Common.{
  ℕ, zero, suc, ◌+◌, ◌≡◌, ◌⊎◌, refl, sym, eq_iff, contains, is_part, arith, some, Option-cases, [],
  ◌∷◌, ◌||◌, ◌==◌, string_eq, false, Bool, true, ◌&&◌, ltb, All, String, Bool-cases, inl, inr,
}
use tokenity.Supervisor.Handles.{Signal, sigterm, sigkill, identified}
use tokenity.Agent.Orphans.{
  Answer, delivered, no_process, not_permitted, Journaled, Table, Stat, runs, is_alive, is_video,
  fits_role, cleanup_recorded, Cleaning, looked, identity_matches, exact_running, sent,
  signal_exact, await_end, conclude, cleanup_startup_orphan,
}

-- The command that was observed and that of the journal are of the program of the journal's role.
unfoldable pub Serves : Journaled → String → Type 0
Serves j command =
    (((j.role ≡ "minimax-h3-video") ⊎ (j.role ≡ "minimax-h3-video-rank"))
      × ((is_part "tokenity minimax-h3-video serve --binary" command ≡ true)
          ⊎ (is_part "mlx-serve --model" command ≡ true))
      × (is_part "tokenity minimax-h3-video serve --binary" j.command ≡ true))
    ⊎ (((j.role ≡ "distributed-openai")
          ⊎ (j.role ≡ "distributed-openai-rank")
          ⊎ (j.role ≡ "single-node-openai"))
        × (is_part "tokenity distributed-openai serve --model" command ≡ true)
        × (is_part "tokenity distributed-openai serve --model" j.command ≡ true))

or_cases : (a b : Bool) → (a || b) ≡ true → (a ≡ true) ⊎ (b ≡ true)
or_cases true b h = inl refl
or_cases false b h = inr h

one_of_two : (r a b : String) → contains r (a ∷ b ∷ []) ≡ true → (r ≡ a) ⊎ (r ≡ b)
one_of_two r a b h = elim (or_cases (a == r) (b == r) (ground (arith, h))) [
  | inl y ↦ inl (sym ((eq_iff a r).0 y))
  | inr y ↦ inr (sym ((eq_iff b r).0 y))
]

one_of_three : (r a b c : String) → contains r (a ∷ b ∷ c ∷ []) ≡ true → (r ≡ a) ⊎ (r ≡ b) ⊎ (r ≡ c)
one_of_three r a b c h = elim (or_cases (a == r) (contains r (b ∷ c ∷ [])) (ground (arith, h))) [
  | inl y ↦ inl (sym ((eq_iff a r).0 y))
  | inr y ↦ or_third r a b c (one_of_two r b c y)
]
  where
    or_third : (r a b c : String) → (r ≡ b) ⊎ (r ≡ c) → (r ≡ a) ⊎ (r ≡ b) ⊎ (r ≡ c)
    or_third r a b c (inl e) = inr (inl e)
    or_third r a b c (inr e) = inr (inr e)

is_alive-runs : (s : Stat) → is_alive s ≡ true → s ≡ runs
is_alive-runs s h = ground (arith, h)

module _ (table : Table) (j : Journaled) where
  -- At this look the process has the start time and, in its command, the path and the program of the
  -- journal, whose own command has them too, and it runs.
  pub record IsExact (n : ℕ) : Type 0 where
    start : table.process_start_identity n ≡ some j.start_identity
    command : String
    observed : table.process_command n ≡ some command
    path : is_part j.resolved_path command ≡ true
    journal_path : is_part j.resolved_path j.command ≡ true
    program : Serves j command
    alive : table.stat n ≡ runs

  fits_role-Serves : (command : String) → fits_role table j command ≡ true → Serves j command
  unfolding Serves
  fits_role-Serves command h = elim (Bool-cases (is_video table j)) [
    | inl y ↦ inl (
      one_of_two j.role "minimax-h3-video" "minimax-h3-video-rank" y,
      or_cases (is_part "tokenity minimax-h3-video serve --binary" command)
          (is_part "mlx-serve --model" command) (ground (arith, h, y)),
      ground (arith, h, y),
    )
    | inr n ↦ inr (
      one_of_three j.role "distributed-openai" "distributed-openai-rank" "single-node-openai"
          (ground (arith, h, n)),
      ground (arith, h, n),
      ground (arith, h, n),
    )
  ]

  exact_running-IsExact : (n : ℕ) → exact_running table j n ≡ true → IsExact n
  unfolding exact_running identity_matches
  exact_running-IsExact n h = elim (Option-cases (table.process_command n)) [
    | inl e ↦ absurd (ground (arith, h, e))
    | inr (command, e) ↦ record {
      start = identified (table.process_start_identity n) j.start_identity (ground (arith, h));
      command = command;
      observed = e;
      path = ground (arith, h, e);
      journal_path = ground (arith, h);
      program = fits_role-Serves command (ground (arith, h, e));
      alive = is_alive-runs (table.stat n) (ground (arith, h));
    }
  ]

  -- Each signal was sent at such a look.
  unfoldable pub IsFenced : Cleaning → Type 0
  IsFenced s = All (λ e. IsExact e.0) s.signals_sent

  sent-IsFenced :
      (signal : Signal) (d : Answer) (s : Cleaning)
      → exact_running table j s.looks ≡ true
      → IsFenced s
      → IsFenced (sent table j signal d s)
  unfolding IsFenced
  sent-IsFenced signal delivered s y h = (exact_running-IsExact s.looks y, h)
  sent-IsFenced signal no_process s y h = h
  sent-IsFenced signal not_permitted s y h = h

  signal_exact-IsFenced :
      (signal : Signal) (s : Cleaning) → IsFenced s → IsFenced (signal_exact table j signal s)
  unfolding signal_exact IsFenced
  signal_exact-IsFenced signal s h = elim (Bool-cases (exact_running table j s.looks)) [
    | inl y ↦ rw y (sent-IsFenced signal (table.killpg s.looks) s y h)
    | inr n ↦ rw n h
  ]

  await_end-IsFenced :
      (deadline fuel : ℕ) (s : Cleaning) → IsFenced s → IsFenced (await_end table j deadline fuel s)
  unfolding await_end IsFenced
  await_end-IsFenced deadline zero s h = h
  await_end-IsFenced deadline (suc fuel) s h =
      elim (Bool-cases (exact_running table j s.looks && ltb (table.now s.looks) deadline)) [
        | inl y ↦ rw y (await_end-IsFenced deadline fuel (looked s) h)
        | inr n ↦ rw n h
      ]

  conclude-IsFenced : (s : Cleaning) → IsFenced s → IsFenced (conclude table j s).1
  unfolding conclude IsFenced
  conclude-IsFenced s h = elim (Bool-cases (exact_running table j s.looks)) [
    | inl y ↦ rw y h
    | inr n ↦ rw n h
  ]

  -- Whatever the process table says at each look, for a clean-up that begins with no signal, or with
  -- such ones: every signal that it has sent comes at a look that finds the process running, under the
  -- start time of the journal and with the path and the program of the journal in its command.
  pub cleanup-IsFenced :
      (fuel : ℕ) (s : Cleaning)
      → IsFenced s
      → IsFenced (cleanup_startup_orphan table (some j) fuel s).1
  unfolding cleanup_startup_orphan cleanup_recorded IsFenced
  cleanup-IsFenced fuel s h = elim (Bool-cases (identity_matches table j s.looks)) [
    | inr n ↦ rw n h
    | inl y ↦
        let t = signal_exact table j sigterm (looked s) in
        let u = await_end table j (table.now t.looks + 3000) fuel t in
        rw y (
          conclude-IsFenced (signal_exact table j sigkill u) (
            signal_exact-IsFenced sigkill u (
              await_end-IsFenced (table.now t.looks + 3000) fuel t
                (signal_exact-IsFenced sigterm (looked s) h))))
  ]
