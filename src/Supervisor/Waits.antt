-- ===== src/Supervisor/Waits.antt =====
-- The wait for a process to end, in `stop` of tokenity/process/supervisor.py.
use tokenity.Common.{
  ℕ, zero, suc, ◌+◌, ◌≤◌, ◌<◌, ◌≡◌, refl, ltb, Option, Bool, true, false, none, some, Bool-cases,
  inl, inr, arith, ℤ,
}
use tokenity.Supervisor.Handles.{
  Process, child, adopted, Os, World, tick, poll, looked, keep_waiting, await_exit, has_identity,
  looked_by_ps,
}

looked-calls : (p : Process) (w : World) (o : Option ℤ) → (looked p w o).0.calls ≡ w.calls
looked-calls p w none = refl
looked-calls p w (some code) = refl

looked_by_ps-calls :
    (p : Process) (w : World) (o : Option Bool) → (looked_by_ps p w o).0.calls ≡ w.calls
looked_by_ps-calls p w none = refl
looked_by_ps-calls p w (some true) = refl
looked_by_ps-calls p w (some false) = refl

poll-calls : (os : Os) (p : Process) (w : World) → w.calls < (poll os p w).0.calls
unfolding poll
poll-calls os (child pid) w =
    omega (arith, looked-calls (child pid) (tick w) (os.exit_code w.calls pid))
poll-calls os (adopted pid start) w =
    elim (Bool-cases (has_identity (os.process_start_identity w.calls pid) start)) [
      | inl y ↦ rw y (
          omega (
            arith,
            looked_by_ps-calls (adopted pid start) (tick (tick w)) (os.is_zombie (w.calls + 1) pid),
          ))
      | inr n ↦ rw n (omega arith)
    ]

module _ (os : Os) (advances : (m n : ℕ) → m < n → os.now m < os.now n) (p : Process)
    (deadline : ℕ) where
  waited_enough :
      (fuel more : ℕ) (m : World × Option ℤ)
      → ((v : World)
          → deadline ≤ os.now v.calls + fuel
          → await_exit os p deadline (suc more) v ≡ await_exit os p deadline (suc fuel) v)
      → deadline ≤ os.now m.0.calls + fuel
      → keep_waiting os deadline (await_exit os p deadline (suc more)) m
        ≡ keep_waiting os deadline (await_exit os p deadline (suc fuel)) m
  waited_enough fuel more (v, some code) h l = refl
  waited_enough fuel more (v, none) h l = elim (Bool-cases (ltb (os.now v.calls) deadline)) [
    | inl y ↦ rw y (h (tick v) (omega (arith, l, advances v.calls (v.calls + 1) (omega arith))))
    | inr n ↦ rw n refl
  ]

  at_deadline :
      (again other : World → World) (m : World × Option ℤ)
      → deadline ≤ os.now m.0.calls
      → keep_waiting os deadline again m ≡ keep_waiting os deadline other m
  at_deadline again other (v, some code) l = refl
  at_deadline again other (v, none) l = ground (arith, l)

  -- Where the clock goes on from each call to the next: with one round more than there are
  -- milliseconds to the deadline the wait is over by itself, since more rounds give the same.
  pub await_exit-enough :
      (fuel more : ℕ) (w : World)
      → fuel ≤ more
      → deadline ≤ os.now w.calls + fuel
      → await_exit os p deadline (suc more) w ≡ await_exit os p deadline (suc fuel) w
  unfolding await_exit
  await_exit-enough zero more w k l =
      at_deadline (await_exit os p deadline more) (await_exit os p deadline zero) (poll os p w)
        (omega (arith, l, advances w.calls (poll os p w).0.calls (poll-calls os p w)))
  await_exit-enough (suc fuel) zero w k l = absurd (omega arith)
  await_exit-enough (suc fuel) (suc more) w k l =
      waited_enough fuel more (poll os p w) (λ v m. await_exit-enough fuel more v (omega arith) m)
        (omega (arith, l, advances w.calls (poll os p w).0.calls (poll-calls os p w)))
