-- ===== src/Supervisor/Replace.antt =====
-- What `start` of tokenity/process/supervisor.py does where a process runs already.
use tokenity.Common.{
  ℕ, ◌+◌, ◌≡◌, ◌⊎◌, refl, sym, ◌∙◌, ap, subst, Bool, true, false, ◌==◌, ◌||◌, any, List, [], ◌∷◌,
  ◌++◌, Option, none, some, or_default, Bool-cases, inl, inr, arith, String, ℤ, lookup,
  lookup-insert, pair_eq, option_eq, string_eq, eq_iff, beq_refl,
}
use tokenity.Supervisor.{
  launched, sweep, signal_role, and_then, finish, kill_if_alive, wait_and_kill, stop_process, stop,
  launch, is_same, start_over, start,
}
use tokenity.Supervisor.Handles.{
  sigterm, sigkill, Process, child, adopted, Delivery, delivered, no_process, not_permitted,
  os_error, ps_silent, unfound, looked_by_ps, unless_gone, identified, sent, Os, Key, Event,
  signals, spawns, sees_exit, World, tick, noted, poll, send_signal, send_group_signal, or_single,
  terminate_process_group, looked, await_exit, has_identity,
}
use tokenity.Supervisor.Trace.{
  Extends, poll-On, send_group_signal-On, signal_role-On, sweep-On, await_exit-On, passes, notes,
  waited_out, ◌then◌, Concerns, IsFenced,
}
use tokenity.Supervisor.Fence.{stop-Extends}

-- The process was seen to have ended, or `ps` said nothing about it, or it was sent `SIGKILL`, or there
-- was no such process to send it to.
abbrev pub is_end : Event → Bool
is_end (signals n p sigkill delivered) = true
is_end (signals n p sigkill no_process) = true
is_end (sees_exit p) = true
is_end (ps_silent p) = true
is_end _ = false

abbrev is_gone : Delivery → Bool
is_gone delivered = true
is_gone no_process = true
is_gone _ = false

any-append : (xs ys : List Event) → any is_end (xs ++ ys) ≡ (any is_end xs || any is_end ys)
any-append [] ys = refl
any-append (x ∷ xs) ys = ground (arith, any-append xs ys)

-- The trace goes on with events of the process, of which one is its end.
pub record Ends (os : Os) (key : Key) (p : Process) (w v : World) : Type 0 where
  pub extends : Extends os key p w v
  pub ended : any is_end extends.events ≡ true

module _ (os : Os) (key : Key) where
  Ends-before :
      {p : Process} {u v w : World} → Ends os key p u v → Extends os key p v w → Ends os key p u w
  Ends-before a b = record {
    extends = ◌then◌ os key a.extends b;
    ended = any-append b.events a.extends.events ∙ ground (arith, a.ended);
  }

  Ends-after :
      {p : Process} {u v w : World} → Extends os key p u v → Ends os key p v w → Ends os key p u w
  Ends-after a b = record {
    extends = ◌then◌ os key a b.extends;
    ended = any-append b.extends.events a.events ∙ ground (arith, b.ended);
  }

  -- One event that is an end.
  Ends-noted :
      (p : Process) (e : Event) (w : World)
      → Concerns os w.supervisor key p e
      → is_end e ≡ true
      → Ends os key p w (noted e w)
  Ends-noted p e w h i = record { extends = notes os key p e w h; ended = ground (arith, i) }

  Ends-seen : (p : Process) (w : World) → Ends os key p w (noted (sees_exit p) w)
  unfolding Concerns
  Ends-seen p w = Ends-noted p (sees_exit p) w refl refl

  Ends-missed :
      (p : Process) (o : Option String) (w : World) → Ends os key p w (noted (unfound p o) (tick w))
  unfolding Concerns
  Ends-missed p none w =
      Ends-after (passes os key p w) (Ends-noted p (ps_silent p) (tick w) refl refl)
  Ends-missed p (some identity) w = Ends-after (passes os key p w) (Ends-seen p (tick w))

  kills :
      (p : Process) (d : Delivery) (w : World)
      → IsFenced os w.calls p
      → is_gone d ≡ true
      → Ends os key p w (noted (signals w.calls p sigkill d) (tick w))
  unfolding Concerns
  kills p delivered w h g =
      Ends-after (passes os key p w)
        (Ends-noted p (signals w.calls p sigkill delivered) (tick w) (refl, h) refl)
  kills p no_process w h g =
      Ends-after (passes os key p w)
        (Ends-noted p (signals w.calls p sigkill no_process) (tick w) (refl, h) refl)
  kills p not_permitted w h g = cc
  kills p os_error w h g = cc

  looked-Ends :
      (p : Process) (w v : World) (o : Option ℤ) (code : ℤ)
      → Extends os key p w v
      → (looked p v o).1 ≡ some code
      → Ends os key p w (looked p v o).0
  looked-Ends p w v none code h e = cc
  looked-Ends p w v (some c) code h e = Ends-after h (Ends-seen p v)

  looked_by_ps-Ends :
      (p : Process) (w v : World) (o : Option Bool) (code : ℤ)
      → Extends os key p w v
      → (looked_by_ps p v o).1 ≡ some code
      → Ends os key p w (looked_by_ps p v o).0
  unfolding Concerns
  looked_by_ps-Ends p w v none code h e = Ends-after h (Ends-noted p (ps_silent p) v refl refl)
  looked_by_ps-Ends p w v (some true) code h e = Ends-after h (Ends-seen p v)
  looked_by_ps-Ends p w v (some false) code h e = cc

  poll-Ends :
      (p : Process) (w : World) (code : ℤ)
      → (poll os p w).1 ≡ some code
      → Ends os key p w (poll os p w).0
  unfolding poll
  poll-Ends (child pid) w code e =
      looked-Ends (child pid) w (tick w) (os.exit_code w.calls pid) code
        (passes os key (child pid) w) e
  poll-Ends (adopted pid start) w code e =
      elim (Bool-cases (has_identity (os.process_start_identity w.calls pid) start)) [
        | inl y ↦ rw y (
            looked_by_ps-Ends (adopted pid start) w (tick (tick w)) (os.is_zombie (w.calls + 1) pid)
              code
              (◌then◌ os key (passes os key (adopted pid start) w)
                (passes os key (adopted pid start) (tick w)))
              (rw y at e))
        | inr n ↦ rw n (Ends-missed (adopted pid start) (os.process_start_identity w.calls pid) w)
      ]

  unless_gone-Ends :
      (p : Process) (w : World) (m : World × Delivery)
      → (is_gone m.1 ≡ true → Ends os key p w m.0)
      → (unless_gone m).1 ≡ delivered
      → Ends os key p w (unless_gone m).0
  unless_gone-Ends p w (v, delivered) h e = h refl
  unless_gone-Ends p w (v, no_process) h e = h refl
  unless_gone-Ends p w (v, not_permitted) h e = absurd (ground (arith, e))
  unless_gone-Ends p w (v, os_error) h e = absurd (ground (arith, e))

  send_signal-Ends :
      (p : Process) (w : World)
      → (send_signal os p sigkill w).1 ≡ delivered
      → Ends os key p w (send_signal os p sigkill w).0
  unfolding send_signal IsFenced
  send_signal-Ends (child pid) w e =
      unless_gone-Ends (child pid) w (sent os os.kill (child pid) sigkill w)
        (kills (child pid) (os.kill w.calls pid) w tt) e
  send_signal-Ends (adopted pid start) w e =
      elim (Bool-cases (has_identity (os.process_start_identity w.calls pid) start)) [
        | inl y ↦ rw y (
            kills (adopted pid start) (os.kill w.calls pid) w
              (identified (os.process_start_identity w.calls pid) start y) (ap is_gone (rw y at e)))
        | inr n ↦ rw n (Ends-missed (adopted pid start) (os.process_start_identity w.calls pid) w)
      ]

  send_group_signal-Ends :
      (p : Process) (w : World)
      → is_gone (send_group_signal os p sigkill w).1 ≡ true
      → Ends os key p w (send_group_signal os p sigkill w).0
  unfolding send_group_signal IsFenced
  send_group_signal-Ends (child pid) w e = kills (child pid) (os.killpg w.calls pid) w tt e
  send_group_signal-Ends (adopted pid start) w e =
      elim (Bool-cases (has_identity (os.process_start_identity w.calls pid) start)) [
        | inl y ↦ rw y (
            kills (adopted pid start) (os.killpg w.calls pid) w
              (identified (os.process_start_identity w.calls pid) start y) (rw y at e))
        | inr n ↦ rw n (Ends-missed (adopted pid start) (os.process_start_identity w.calls pid) w)
      ]

  or_single-Ends :
      (p : Process) (w : World) (m : World × Delivery)
      → Extends os key p w m.0
      → (is_gone m.1 ≡ true → Ends os key p w m.0)
      → (or_single os p sigkill m).1 ≡ delivered
      → Ends os key p w (or_single os p sigkill m).0
  or_single-Ends p w (v, delivered) x h e = h refl
  or_single-Ends p w (v, no_process) x h e = h refl
  or_single-Ends p w (v, not_permitted) x h e = Ends-after x (send_signal-Ends p v e)
  or_single-Ends p w (v, os_error) x h e = absurd (ground (arith, e))

  -- Where no exception is raised, `SIGKILL` is sent, unless the process is found to be gone.
  signal_role-Ends :
      (p : Process) (w : World)
      → (signal_role os key p sigkill w).1 ≡ delivered
      → Ends os key p w (signal_role os key p sigkill w).0
  unfolding signal_role terminate_process_group
  signal_role-Ends p w e =
      elim (Bool-cases (or_default (lookup key w.supervisor.new_sessions) true)) [
        | inl y ↦ rw y (
            or_single-Ends p w (send_group_signal os p sigkill w)
              (send_group_signal-On os key p sigkill w) (send_group_signal-Ends p w) (rw y at e))
        | inr n ↦ rw n (send_signal-Ends p w (rw n at e))
      ]

  and_then-Ends :
      (p : Process) (w : World) (next : World → World × Delivery) (m : World × Delivery)
      → ((v : World) → Extends os key p v (next v).0)
      → (m.1 ≡ delivered → Ends os key p w m.0)
      → (and_then next m).1 ≡ delivered
      → Ends os key p w (and_then next m).0
  and_then-Ends p w next (v, delivered) k h e = Ends-before (h refl) (k v)
  and_then-Ends p w next (v, no_process) k h e = absurd (ground (arith, e))
  and_then-Ends p w next (v, not_permitted) k h e = absurd (ground (arith, e))
  and_then-Ends p w next (v, os_error) k h e = absurd (ground (arith, e))

  kill_if_alive-Ends :
      (fuel : ℕ) (p : Process) (w : World) (m : World × Option ℤ)
      → Extends os key p w m.0
      → ((code : ℤ) → m.1 ≡ some code → Ends os key p w m.0)
      → (kill_if_alive os fuel key p m).1 ≡ delivered
      → Ends os key p w (kill_if_alive os fuel key p m).0
  unfolding kill_if_alive
  kill_if_alive-Ends fuel p w (v, some code) h k e =
      Ends-before (k code refl) (sweep-On os key p sigkill v)
  kill_if_alive-Ends fuel p w (v, none) h k e = Ends-after h (
      and_then-Ends p v
        (λ u. finish sigkill key (await_exit os p (os.now u.calls + 2000) fuel (tick u)))
        (signal_role os key p sigkill v) (waited_out os key fuel p) (signal_role-Ends p v) e)

  wait_and_kill-Ends :
      (fuel timeout : ℕ) (p : Process) (w : World)
      → (wait_and_kill os fuel timeout key p w).1 ≡ delivered
      → Ends os key p w (wait_and_kill os fuel timeout key p w).0
  unfolding wait_and_kill
  wait_and_kill-Ends fuel timeout p w d =
      let v = sweep sigterm key w in
      let u = await_exit os p (os.now v.calls + timeout) fuel (tick v) in
      let before =
        ◌then◌ os key (◌then◌ os key (sweep-On os key p sigterm w) (passes os key p v))
          (await_exit-On os key p (os.now v.calls + timeout) fuel (tick v)) in
      kill_if_alive-Ends fuel p w (poll os p u) (◌then◌ os key before (poll-On os key p u))
        (λ code e. Ends-after before (poll-Ends p u code e)) d

  and_then-delivered :
      (p : Process) (w : World) (next : World → World × Delivery) (m : World × Delivery)
      → (and_then next m).1 ≡ delivered
      → ((v : World) → (next v).1 ≡ delivered → Ends os key p v (next v).0)
      → Extends os key p w m.0
      → Ends os key p w (and_then next m).0
  and_then-delivered p w next (v, delivered) e k h = Ends-after h (k v e)
  and_then-delivered p w next (v, no_process) e k h = absurd (ground (arith, e))
  and_then-delivered p w next (v, not_permitted) e k h = absurd (ground (arith, e))
  and_then-delivered p w next (v, os_error) e k h = absurd (ground (arith, e))

  stop_process-Ends :
      (fuel timeout : ℕ) (p : Process) (w : World) (m : World × Option ℤ)
      → Extends os key p w m.0
      → ((code : ℤ) → m.1 ≡ some code → Ends os key p w m.0)
      → (stop_process os fuel timeout key p m).1 ≡ delivered
      → Ends os key p w (stop_process os fuel timeout key p m).0
  unfolding stop_process
  stop_process-Ends fuel timeout p w (v, some code) h k e =
      Ends-before (Ends-before (k code refl) (sweep-On os key p sigterm v))
        (sweep-On os key p sigkill (sweep sigterm key v))
  stop_process-Ends fuel timeout p w (v, none) h k e = Ends-after h (
      and_then-delivered p v (wait_and_kill os fuel timeout key p) (signal_role os key p sigterm v)
        e (wait_and_kill-Ends fuel timeout p) (signal_role-On os key p sigterm v))

  stop-Ends :
      (fuel timeout : ℕ) (w : World) (p : Process)
      → lookup key w.supervisor.processes ≡ some p
      → (stop os fuel timeout key w).1 ≡ delivered
      → Ends os key p w (stop os fuel timeout key w).0
  unfolding stop
  stop-Ends fuel timeout w p e d = rw e (
      stop_process-Ends fuel timeout p w (poll os p w) (poll-On os key p w) (poll-Ends p w)
        (rw e at d))

  module _ (fuel : ℕ) (command : List String) (new_session : Bool)
      (operation_id : Option String) where
    -- Nothing is started, or the process is started where the one before has its end.
    abbrev pub Started : Process → World → World × Delivery → Type 0
    Started p w m =
        Extends os key p w m.0
        ⊎ ((u : World) × Ends os key p w u × (m ≡ launch os key command new_session operation_id u))

    after_stop-Started :
        (p : Process) (w : World) (m : World × Delivery)
        → Extends os key p w m.0
        → (m.1 ≡ delivered → Ends os key p w m.0)
        → Started p w (and_then (launch os key command new_session operation_id) m)
    after_stop-Started p w (v, delivered) h k = inr (v, k refl, refl)
    after_stop-Started p w (v, no_process) h k = inl h
    after_stop-Started p w (v, not_permitted) h k = inl h
    after_stop-Started p w (v, os_error) h k = inl h

    start_over-Started :
        (p : Process) (w : World) (m : World × Option ℤ)
        → lookup key w.supervisor.processes ≡ some p
        → Extends os key p w m.0
        → ((code : ℤ) → m.1 ≡ some code → Ends os key p w m.0)
        → Started p w (start_over os fuel key command new_session operation_id p m)
    unfolding start_over
    start_over-Started p w (v, some code) e h k = inr (v, k code refl, refl)
    start_over-Started p w (v, none) e h k =
        elim (Bool-cases (is_same key command operation_id v.supervisor)) [
          | inl y ↦ rw y (inl h)
          | inr n ↦
              let known = subst (λ s. lookup key s.processes ≡ some p) (sym h.same) e in
              rw n (
                after_stop-Started p w (stop os fuel 10000 key v)
                  (◌then◌ os key h (stop-Extends os key fuel 10000 v p known).0)
                  (λ d. Ends-after h (stop-Ends fuel 10000 v p known d)))
        ]

    launched_stays :
        (other : Key) (u : World) (o : Option ℕ)
        → (key == other) ≡ false
        → lookup other (launched os key command new_session operation_id u o).0.supervisor.processes
          ≡ lookup other u.supervisor.processes
    launched_stays other u none n = refl
    launched_stays other u (some pid) n =
        lookup-insert key other (child pid) u.supervisor.processes ∙ rw n refl

    others_stay :
        (p : Process) (w : World) (m : World × Delivery) (other : Key)
        → Started p w m
        → (key == other) ≡ false
        → lookup other m.0.supervisor.processes ≡ lookup other w.supervisor.processes
    unfolding launch
    others_stay p w m other (inl x) n = ap (λ s. lookup other s.processes) x.same
    others_stay p w m other (inr (u, x, e)) n =
        ap (λ r. lookup other r.0.supervisor.processes) e
        ∙ launched_stays other (tick u) (os.spawn u.calls) n
        ∙ ap (λ s. lookup other s.processes) x.extends.same

    start-Started_only :
        (w : World) (p : Process)
        → lookup key w.supervisor.processes ≡ some p
        → Started p w (start os fuel key command new_session operation_id w)
    unfolding start
    start-Started_only w p e =
        rw e (start_over-Started p w (poll os p w) e (poll-On os key p w) (poll-Ends p w))

    -- Where there is a process under the key already: either `start` starts nothing, leaves the tables
    -- as they are, and its events are of that process or sweeps with the command of a key without an
    -- instance; or it goes on to launch one, and before that its events are such ones and among them is
    -- that this process was seen to have ended, that `ps` said nothing about it, that SIGKILL was sent
    -- to it, or that there was no such process to send it to. The processes under other keys stay as
    -- they are.
    pub start-Started :
        (w : World) (p : Process)
        → lookup key w.supervisor.processes ≡ some p
        → Started p w (start os fuel key command new_session operation_id w)
          × ((other : Key)
              → (key == other) ≡ false
              → lookup other
                  (start os fuel key command new_session operation_id w).0.supervisor.processes
                ≡ lookup other w.supervisor.processes)
    start-Started w p e =
        let m = start os fuel key command new_session operation_id w in
        let started = start-Started_only w p e in
        (started, λ other n. others_stay p w m other started n)

    -- Where `ps` finds the start time of an adopted process, does not answer about its state at the next
    -- call, and a process can be made: `start` makes one, which takes the place of the adopted one in
    -- the table, and sends no signal.
    pub start-silent :
        (w : World) (pid new : ℕ) (started : String)
        → lookup key w.supervisor.processes ≡ some (adopted pid started)
        → os.process_start_identity w.calls pid ≡ some started
        → os.is_zombie (w.calls + 1) pid ≡ none
        → os.spawn (w.calls + 1 + 1) ≡ some new
        → (lookup key (start os fuel key command new_session operation_id w).0.supervisor.processes
            ≡ some (child new))
          × ((start os fuel key command new_session operation_id w).0.trace
              ≡ spawns key new ∷ ps_silent (adopted pid started) ∷ w.trace)
          × ((start os fuel key command new_session operation_id w).1 ≡ delivered)
    unfolding start start_over poll launch
    start-silent w pid new started e h z n =
        let m =
          launched os key command new_session operation_id
            (tick (noted (ps_silent (adopted pid started)) (tick (tick w)))) (some new) in
        let same : start os fuel key command new_session operation_id w ≡ m =
          rw (e, h, (eq_iff started started).1 refl, z)
            (ap
              (launched os key command new_session operation_id
                (tick (noted (ps_silent (adopted pid started)) (tick (tick w)))))
              n) in
        (
          ap (λ r. lookup key r.0.supervisor.processes) same
              ∙ lookup-insert key key (child new) w.supervisor.processes
              ∙ rw (beq_refl key) refl,
          ap (λ r. r.0.trace) same,
          ap (λ r. r.1) same,
        )
