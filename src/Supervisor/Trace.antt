-- ===== src/Supervisor/Trace.antt =====
-- What each step of tokenity/process/supervisor.py adds to the trace.
use tokenity.Common.{
  ℕ, zero, suc, ◌+◌, ◌≡◌, refl, sym, ◌∙◌, ap, subst, true, false, Bool, if◌then◌else◌, ltb, All,
  All-append, List, [], ◌∷◌, ◌++◌, Option, none, some, or_default, Bool-cases, inl, inr, String, ℤ,
  lookup, pair_eq, option_eq, string_eq,
}
use tokenity.Supervisor.{
  is_shared, sweep_command, sweep, signal_role, and_then, finish, kill_if_alive, wait_and_kill,
  stop_process, stop_known,
}
use tokenity.Supervisor.Handles.{
  Signal, sigterm, sigkill, Process, child, adopted, Delivery, delivered, no_process, not_permitted,
  os_error, ps_silent, unfound, RoleSupervisor, looked_by_ps, unless_gone, identified, sent, Os,
  Key, Event, signals, sweeps, spawns, sees_exit, World, tick, noted, poll, send_signal,
  send_group_signal, or_single, terminate_process_group, looked, keep_waiting, await_exit,
  has_identity,
}

-- A signal to an adopted process comes where the process has the start time that was recorded.
unfoldable pub IsFenced : Os → ℕ → Process → Type 0
IsFenced os n (child pid) = Unit
IsFenced os n (adopted pid start) = os.process_start_identity n pid ≡ some start

-- An event of a process under a key, and no other process's, but for sweeps with the command that the
-- tables have under the key, where the key has no instance.
unfoldable pub Concerns : Os → RoleSupervisor → Key → Process → Event → Type 0
unfolding IsFenced
Concerns os tables key p (signals n q s d) = (q ≡ p) × IsFenced os n q
Concerns os tables key p (sweeps command s) =
    (is_shared key ≡ true) × (lookup key tables.commands ≡ some command)
Concerns os tables key p (spawns other pid) = ⊥
Concerns os tables key p (sees_exit q) = q ≡ p
Concerns os tables key p (ps_silent q) = q ≡ p

-- The supervisor's tables are as before, and each event since concerns the process.
pub record Extends (os : Os) (key : Key) (p : Process) (w v : World) : Type 0 where
  pub same : v.supervisor ≡ w.supervisor
  pub events : List Event
  pub grown : v.trace ≡ events ++ w.trace
  pub each : All (Concerns os w.supervisor key p) events

pub append_assoc : (xs ys zs : List Event) → (xs ++ ys) ++ zs ≡ xs ++ (ys ++ zs)
append_assoc [] ys zs = refl
append_assoc (x ∷ xs) ys zs = ap (λ es. x ∷ es) (append_assoc xs ys zs)

module _ (os : Os) (key : Key) where
  abbrev pub On : Process → World → World → Type 0
  On p = Extends os key p

  unchanged : (p : Process) (w : World) → On p w w
  unchanged p w = record { same = refl; events = []; grown = refl; each = tt }

  abbrev pub passes : (p : Process) (w : World) → On p w (tick w)
  passes p w = record { same = refl; events = []; grown = refl; each = tt }

  abbrev pub notes :
      (p : Process) (e : Event) (w : World) → Concerns os w.supervisor key p e → On p w (noted e w)
  notes p e w h = record { same = refl; events = e ∷ []; grown = refl; each = (h, tt) }

  infixl 5 ◌then◌
  abbrev pub ◌then◌ : {p : Process} {u v w : World} → On p u v → On p v w → On p u w
  ◌then◌ {p} {u} {v} {w} a b = record {
    same = b.same ∙ a.same;
    events = b.events ++ a.events;
    grown =
        b.grown ∙ ap (λ es. b.events ++ es) a.grown ∙ sym (append_assoc b.events a.events u.trace);
    each =
        All-append (Concerns os u.supervisor key p) b.events a.events
          (subst (λ t. All (Concerns os t key p) b.events) a.same b.each) a.each;
  }

  sees : (p : Process) (w : World) → On p w (noted (sees_exit p) w)
  unfolding Concerns
  sees p w = notes p (sees_exit p) w refl

  misses : (p : Process) (o : Option String) (w : World) → On p w (noted (unfound p o) w)
  unfolding Concerns
  misses p none w = notes p (ps_silent p) w refl
  misses p (some identity) w = sees p w

  looked-On : (p : Process) (w v : World) (o : Option ℤ) → On p w v → On p w (looked p v o).0
  looked-On p w v none h = h
  looked-On p w v (some code) h = h then sees p v

  looked_by_ps-On :
      (p : Process) (w v : World) (o : Option Bool) → On p w v → On p w (looked_by_ps p v o).0
  unfolding Concerns
  looked_by_ps-On p w v none h = h then notes p (ps_silent p) v refl
  looked_by_ps-On p w v (some true) h = h then sees p v
  looked_by_ps-On p w v (some false) h = h

  pub poll-On : (p : Process) (w : World) → On p w (poll os p w).0
  unfolding poll
  poll-On (child pid) w =
      looked-On (child pid) w (tick w) (os.exit_code w.calls pid) (passes (child pid) w)
  poll-On (adopted pid start) w =
      elim (Bool-cases (has_identity (os.process_start_identity w.calls pid) start)) [
        | inl y ↦ rw y (
            looked_by_ps-On (adopted pid start) w (tick (tick w)) (os.is_zombie (w.calls + 1) pid)
              (passes (adopted pid start) w then passes (adopted pid start) (tick w)))
        | inr n ↦ rw n (
            passes (adopted pid start) w
            then misses (adopted pid start) (os.process_start_identity w.calls pid) (tick w))
      ]

  signalled :
      (p : Process) (s : Signal) (d : Delivery) (w : World)
      → IsFenced os w.calls p
      → On p w (noted (signals w.calls p s d) (tick w))
  unfolding Concerns
  signalled p s d w h = passes p w then notes p (signals w.calls p s d) (tick w) (refl, h)

  unless_gone-On :
      (p : Process) (w : World) (m : World × Delivery) → On p w m.0 → On p w (unless_gone m).0
  unless_gone-On p w (v, delivered) h = h
  unless_gone-On p w (v, no_process) h = h
  unless_gone-On p w (v, not_permitted) h = h
  unless_gone-On p w (v, os_error) h = h

  pub send_signal-On : (p : Process) (s : Signal) (w : World) → On p w (send_signal os p s w).0
  unfolding send_signal IsFenced
  send_signal-On (child pid) s w =
      unless_gone-On (child pid) w (sent os os.kill (child pid) s w)
        (signalled (child pid) s (os.kill w.calls pid) w tt)
  send_signal-On (adopted pid start) s w =
      elim (Bool-cases (has_identity (os.process_start_identity w.calls pid) start)) [
        | inl y ↦ rw y (
            signalled (adopted pid start) s (os.kill w.calls pid) w
              (identified (os.process_start_identity w.calls pid) start y))
        | inr n ↦ rw n (
            passes (adopted pid start) w
            then misses (adopted pid start) (os.process_start_identity w.calls pid) (tick w))
      ]

  pub send_group_signal-On :
      (p : Process) (s : Signal) (w : World) → On p w (send_group_signal os p s w).0
  unfolding send_group_signal IsFenced
  send_group_signal-On (child pid) s w = signalled (child pid) s (os.killpg w.calls pid) w tt
  send_group_signal-On (adopted pid start) s w =
      elim (Bool-cases (has_identity (os.process_start_identity w.calls pid) start)) [
        | inl y ↦ rw y (
            signalled (adopted pid start) s (os.killpg w.calls pid) w
              (identified (os.process_start_identity w.calls pid) start y))
        | inr n ↦ rw n (
            passes (adopted pid start) w
            then misses (adopted pid start) (os.process_start_identity w.calls pid) (tick w))
      ]

  or_single-On :
      (p : Process) (s : Signal) (w : World) (m : World × Delivery)
      → On p w m.0
      → On p w (or_single os p s m).0
  or_single-On p s w (v, delivered) h = h
  or_single-On p s w (v, no_process) h = h
  or_single-On p s w (v, os_error) h = h
  or_single-On p s w (v, not_permitted) h = h then send_signal-On p s v

  pub terminate_process_group-On :
      (p : Process) (s : Signal) (w : World) → On p w (terminate_process_group os p s w).0
  unfolding terminate_process_group
  terminate_process_group-On p s w =
      or_single-On p s w (send_group_signal os p s w) (send_group_signal-On p s w)

  keep_waiting-On :
      (p : Process) (deadline : ℕ) (again : World → World) (w : World) (m : World × Option ℤ)
      → ((v : World) → On p v (again v))
      → On p w m.0
      → On p w (keep_waiting os deadline again m)
  keep_waiting-On p deadline again w (v, some code) k h = h
  keep_waiting-On p deadline again w (v, none) k h =
      elim (Bool-cases (ltb (os.now v.calls) deadline)) [
        | inl y ↦ rw y (h then passes p v then k (tick v))
        | inr n ↦ rw n (h then passes p v)
      ]

  pub await_exit-On :
      (p : Process) (deadline fuel : ℕ) (w : World) → On p w (await_exit os p deadline fuel w)
  unfolding await_exit
  await_exit-On p deadline zero w = unchanged p w
  await_exit-On p deadline (suc fuel) w =
      keep_waiting-On p deadline (await_exit os p deadline fuel) w (poll os p w)
        (await_exit-On p deadline fuel) (poll-On p w)

  sweep_command-On :
      (p : Process) (s : Signal) (o : Option (List String)) (w : World)
      → is_shared key ≡ true
      → lookup key w.supervisor.commands ≡ o
      → On p w (sweep_command s o w)
  unfolding Concerns
  sweep_command-On p s none w h e = unchanged p w
  sweep_command-On p s (some []) w h e = unchanged p w
  sweep_command-On p s (some (c ∷ cs)) w h e = notes p (sweeps (c ∷ cs) s) w (h, e)

  pub sweep-On : (p : Process) (s : Signal) (w : World) → On p w (sweep s key w)
  sweep-On p s w = elim (Bool-cases (is_shared key)) [
    | inl y ↦ rw y (sweep_command-On p s (lookup key w.supervisor.commands) w y refl)
    | inr n ↦ rw n (unchanged p w)
  ]

  pub signal_role-On : (p : Process) (s : Signal) (w : World) → On p w (signal_role os key p s w).0
  unfolding signal_role
  signal_role-On p s w =
      elim (Bool-cases (or_default (lookup key w.supervisor.new_sessions) true)) [
        | inl y ↦ rw y (terminate_process_group-On p s w)
        | inr n ↦ rw n (send_signal-On p s w)
      ]

  and_then-On :
      (p : Process) (w : World) (next : World → World × Delivery) (m : World × Delivery)
      → ((v : World) → On p v (next v).0)
      → On p w m.0
      → On p w (and_then next m).0
  and_then-On p w next (v, delivered) k h = h then k v
  and_then-On p w next (v, no_process) k h = h
  and_then-On p w next (v, not_permitted) k h = h
  and_then-On p w next (v, os_error) k h = h

  -- The wait behind `SIGKILL`.
  pub waited_out :
      (fuel : ℕ) (p : Process) (u : World)
      → On p u (finish sigkill key (await_exit os p (os.now u.calls + 2000) fuel (tick u))).0
  waited_out fuel p u =
      passes p u
      then await_exit-On p (os.now u.calls + 2000) fuel (tick u)
      then sweep-On p sigkill (await_exit os p (os.now u.calls + 2000) fuel (tick u))

  kill_if_alive-On :
      (fuel : ℕ) (p : Process) (w : World) (m : World × Option ℤ)
      → On p w m.0
      → On p w (kill_if_alive os fuel key p m).0
  unfolding kill_if_alive
  kill_if_alive-On fuel p w (v, some code) h = h then sweep-On p sigkill v
  kill_if_alive-On fuel p w (v, none) h =
      h
      then and_then-On p v
          (λ u. finish sigkill key (await_exit os p (os.now u.calls + 2000) fuel (tick u)))
          (signal_role os key p sigkill v) (waited_out fuel p) (signal_role-On p sigkill v)

  wait_and_kill-On :
      (fuel timeout : ℕ) (p : Process) (w : World)
      → On p w (wait_and_kill os fuel timeout key p w).0
  unfolding wait_and_kill
  wait_and_kill-On fuel timeout p w =
      let v = sweep sigterm key w in
      let u = await_exit os p (os.now v.calls + timeout) fuel (tick v) in
      kill_if_alive-On fuel p w (poll os p u) (
        sweep-On p sigterm w
        then passes p v
        then await_exit-On p (os.now v.calls + timeout) fuel (tick v)
        then poll-On p u)

  pub stop_process-On :
      (fuel timeout : ℕ) (p : Process) (w : World) (m : World × Option ℤ)
      → On p w m.0
      → On p w (stop_process os fuel timeout key p m).0
  unfolding stop_process
  stop_process-On fuel timeout p w (v, some code) h =
      h then sweep-On p sigterm v then sweep-On p sigkill (sweep sigterm key v)
  stop_process-On fuel timeout p w (v, none) h =
      h
      then and_then-On p v (wait_and_kill os fuel timeout key p) (signal_role os key p sigterm v)
          (wait_and_kill-On fuel timeout p) (signal_role-On p sigterm v)

  stop_known-On :
      (fuel timeout : ℕ) (w : World) (o : Option Process) (p : Process)
      → or_default o p ≡ p
      → On p w (stop_known os fuel timeout key w o).0
  stop_known-On fuel timeout w none p e =
      sweep-On p sigterm w then sweep-On p sigkill (sweep sigterm key w)
  stop_known-On fuel timeout w (some q) p e =
      subst (λ r. On r w (stop_process os fuel timeout key q (poll os q w)).0) e
        (stop_process-On fuel timeout q w (poll os q w) (poll-On q w))
