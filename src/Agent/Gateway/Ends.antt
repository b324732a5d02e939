-- ===== src/Agent/Gateway/Ends.antt =====
-- The failover of a chat request, `gateway_chat_completions` of tokenity/node_agent/agent.py: it ends,
-- and tries no instance twice.
use tokenity.Common.{
  ℕ, zero, suc, ◌+◌, ◌≤◌, ◌<◌, ◌≡◌, refl, sym, subst, Bool, true, false, if◌then◌else◌, ◌&&◌, ◌||◌,
  not, leb, ◌==◌, eq_iff, contains, length, All, String, string_eq, List, [], ◌∷◌, ◌++◌, Option,
  some, arith, inl, inr, Bool-cases, lookup,
}
use tokenity.Errors.{Result, ok, err, Result-cases}
use tokenity.Instance.{ModelInstance}
use tokenity.Registry.{Registry, acquire}
use tokenity.Router.{Cursor, resolve, eligible}
use tokenity.Router.Sound.{resolve-Fits}
use tokenity.Agent.Gateway.{
  SlotAnswer, granted, queue_full, timed_out, cancelled, conflict, OpenAnswer, disconnected,
  interrupted, failed, status, Env, Target, Loop, Ending, endless, Next, next_target, again, ends,
  resolve_target, needs_another, after_failure, after_open, after_payload, after_lease, after_slot,
  try_instance, round, follow, failover, is_empty, release_gateway_resources, attempted, with_slot,
  with_lease, marked, started,
}

contains-append :
    (i : String) (xs ys : List String) → contains i (xs ++ ys) ≡ (contains i xs || contains i ys)
contains-append i [] ys = refl
contains-append i (x ∷ xs) ys = ground (arith, contains-append i xs ys)

-- No text stands twice.
unfoldable pub IsDistinct : List String → Type 0
IsDistinct [] = Unit
IsDistinct (i ∷ is) = (contains i is ≡ false) × IsDistinct is

-- How many of the ids have not been tried.
abbrev pub untried : List String → List String → ℕ
untried [] tried = 0
untried (i ∷ is) tried = (if contains i tried then 0 else 1) + untried is tried

untried-le :
    (ids : List String) (i : String) (tried : List String)
    → untried ids (i ∷ tried) ≤ untried ids tried
untried-le [] i tried = omega arith
untried-le (j ∷ ids) i tried = ground (arith, untried-le ids i tried)

untried-lt :
    (ids : List String) (i : String) (tried : List String)
    → contains i ids ≡ true
    → contains i tried ≡ false
    → untried ids (i ∷ tried) < untried ids tried
untried-lt [] i tried h n = absurd (ground (arith, h))
untried-lt (j ∷ ids) i tried h n = elim (Bool-cases (j == i)) [
  | inl y ↦ rw ((eq_iff j i).0 y) (ground (arith, (eq_iff i i).1 refl, untried-le ids i tried, n))
  | inr m ↦ ground (arith, m, untried-lt ids i tried (ground (arith, h, m)) n)
]

eligible-fresh :
    (revision : Option String) (excluded : List String) (i : ModelInstance)
    → eligible revision excluded i ≡ true
    → contains i.instance_id excluded ≡ false
unfolding eligible
eligible-fresh revision excluded i h = ground (arith, h)

not_tried :
    (env : Env) (excluded : List String) (exact : Bool) (t : Target) (s : Loop)
    → needs_another env excluded exact t s ≡ false
    → contains s.selected.instance_id s.attempted_instances ≡ false
unfolding needs_another
not_tried env excluded exact t s h = ground (arith, h)

module _ (env : Env) (excluded : List String) (exact : Bool) (ids : List String) where
  -- The instance at hand is one of those ids, and not excluded.
  unfoldable pub MayTry : Loop → Type 0
  MayTry s =
      (contains s.selected.instance_id ids ≡ true)
      × (contains s.selected.instance_id excluded ≡ false)

  -- What was tried was tried once, and was not excluded.
  unfoldable pub TriedOnce : List String → Type 0
  unfolding IsDistinct
  TriedOnce tried = IsDistinct tried × All (λ i. contains i excluded ≡ false) tried

  abbrev pub is_endless : Ending → Bool
  is_endless endless = true
  is_endless _ = false

  abbrev After : List String → Next → Type 0
  After tried (next_target s) = (s.attempted_instances ≡ tried) × MayTry s
  After tried (again s) = (s.attempted_instances ≡ tried) × MayTry s
  After tried (ends e s) = (s.attempted_instances ≡ tried) × (is_endless e ≡ false)

  module _
      (known : (n : ℕ) (k : String) (i : ModelInstance)
        → lookup k (env.registry n) ≡ some i
        → contains i.instance_id ids ≡ true) where
    abbrev target_of : Target → Loop → Result (Cursor × ModelInstance)
    target_of t s =
        resolve t.model_id (some t.revision) (s.attempted_instances ++ excluded)
          (env.registry s.calls) (env.cursor s.calls)

    -- What the router finds has not been tried.
    target_of-MayTry :
        (t : Target) (s : Loop) (c : Cursor) (i : ModelInstance)
        → target_of t s ≡ ok (c, i)
        → (contains i.instance_id s.attempted_instances ≡ false)
          × (contains i.instance_id ids ≡ true)
          × (contains i.instance_id excluded ≡ false)
    target_of-MayTry t s c i e =
        let fits =
          resolve-Fits t.model_id (some t.revision) (s.attempted_instances ++ excluded)
            (env.registry s.calls) (env.cursor s.calls) c i e in
        let fresh =
          eligible-fresh (some t.revision) (s.attempted_instances ++ excluded) i fits.passes in
        (
          ground (arith, fresh, contains-append i.instance_id s.attempted_instances excluded),
          known s.calls fits.registered.0 i fits.registered.1,
          ground (arith, fresh, contains-append i.instance_id s.attempted_instances excluded),
        )

    after_failure-After :
        (t : Target) (s : Loop)
        → MayTry s
        → After s.attempted_instances (after_failure env excluded exact t s)
    unfolding after_failure resolve_target MayTry
    after_failure-After t s h = elim (Bool-cases exact) [
      | inl y ↦ rw y (refl, h)
      | inr n ↦ elim (Result-cases (target_of t (marked s))) [
        | inl (x, e) ↦ rw (n, e) (refl, h)
        | inr ((c, i), e) ↦
            let (fresh, in_ids, allowed) = target_of-MayTry t (marked s) c i e in
            rw (n, e) (refl, (in_ids, allowed))
      ]
    ]

    after_open-After :
        (t : Target) (a : OpenAnswer) (s : Loop)
        → MayTry s
        → After s.attempted_instances (after_open env excluded exact t a s)
    unfolding after_open MayTry
    after_open-After t disconnected s h = (refl, refl)
    after_open-After t interrupted s h = (refl, refl)
    after_open-After t failed s h = after_failure-After t (release_gateway_resources s) h
    after_open-After t (status code) s h = elim (Bool-cases (leb 500 code)) [
      | inl y ↦ rw y (after_failure-After t (release_gateway_resources s) h)
      | inr n ↦ rw n (refl, refl)
    ]

    after_payload-After :
        (t : Target) (b : Bool) (s : Loop)
        → MayTry s
        → After s.attempted_instances (after_payload env excluded exact t b s)
    unfolding MayTry
    after_payload-After t true s h = after_open-After t (env.opens s.calls) s h
    after_payload-After t false s h = (refl, refl)

    after_lease-After :
        (t : Target) (s : Loop) (m : Result (Registry × ModelInstance))
        → MayTry s
        → After s.attempted_instances (after_lease env excluded exact t s m)
    unfolding after_lease MayTry
    after_lease-After t s (err e) h = (refl, refl)
    after_lease-After t s (ok (r, i)) h =
        after_payload-After t (env.encodes s.calls) (with_lease s) h

    after_slot-After :
        (t : Target) (a : SlotAnswer) (s : Loop)
        → MayTry s
        → After s.attempted_instances (after_slot env excluded exact t a s)
    unfolding after_slot MayTry
    after_slot-After t queue_full s h = (refl, refl)
    after_slot-After t timed_out s h = (refl, refl)
    after_slot-After t cancelled s h = (refl, refl)
    after_slot-After t conflict s h = (refl, refl)
    after_slot-After t granted s h =
        after_lease-After t (with_slot s)
          (acquire (env.now s.calls) s.selected.instance_id (env.registry s.calls)) h

    -- What holds between the rounds.
    unfoldable pub IsFair : Loop → Type 0
    IsFair s = MayTry s × TriedOnce s.attempted_instances

    -- A round that tries no instance leads on to the next target; one that goes round again has tried
    -- one more.
    abbrev Progress : ℕ → Next → Type 0
    Progress n (next_target s) = IsFair s × (untried ids s.attempted_instances ≤ n)
    Progress n (again s) = IsFair s × (untried ids s.attempted_instances < n)
    Progress n (ends e s) = TriedOnce s.attempted_instances × (is_endless e ≡ false)

    After-Progress :
        (tried : List String) (n : ℕ) (m : Next)
        → TriedOnce tried
        → untried ids tried < n
        → After tried m
        → Progress n m
    unfolding IsFair
    After-Progress tried n (next_target s) h l a =
        ((a.1, subst TriedOnce (sym a.0) h), rw a.0 (omega arith))
    After-Progress tried n (again s) h l a = ((a.1, subst TriedOnce (sym a.0) h), rw a.0 l)
    After-Progress tried n (ends e s) h l a = (subst TriedOnce (sym a.0) h, a.1)

    try_instance-Progress :
        (t : Target) (s : Loop)
        → IsFair s
        → contains s.selected.instance_id s.attempted_instances ≡ false
        → Progress (untried ids s.attempted_instances) (try_instance env excluded exact t s)
    unfolding try_instance IsFair MayTry TriedOnce
    try_instance-Progress t s h fresh =
        elim (Bool-cases (exact && not (is_empty s.attempted_instances))) [
          | inl y ↦ rw y (h, omega arith)
          | inr n ↦ rw n (
              After-Progress (s.selected.instance_id ∷ s.attempted_instances)
                (untried ids s.attempted_instances)
                (after_slot env excluded exact t (env.slot s.calls) (attempted s))
                ((fresh, h.1.0), (h.0.1, h.1.1))
                (untried-lt ids s.selected.instance_id s.attempted_instances h.0.0 fresh)
                (after_slot-After t (env.slot s.calls) (attempted s) h.0))
        ]

    round-Progress :
        (t : Target) (s : Loop)
        → IsFair s
        → Progress (untried ids s.attempted_instances) (round env excluded exact t s)
    unfolding round resolve_target IsFair MayTry
    round-Progress t s h = elim (Bool-cases (needs_another env excluded exact t s)) [
      | inl y ↦ elim (Result-cases (target_of t s)) [
        | inl (x, e) ↦ rw (y, e) (h, omega arith)
        | inr ((c, i), e) ↦
            let (fresh, in_ids, allowed) = target_of-MayTry t s c i e in
            rw (y, e)
              (try_instance-Progress t (record s { selected = i; calls = s.calls + 1 })
                ((in_ids, allowed), h.1) fresh)
      ]
      | inr n ↦ rw n (try_instance-Progress t s h (not_tried env excluded exact t s n))
    ]

    abbrev Finished : Ending × Loop → Type 0
    Finished (e, s) = TriedOnce s.attempted_instances × (is_endless e ≡ false)

    follow-Finished :
        (n : ℕ) (leave stay : Loop → Ending × Loop) (m : Next)
        → ((s : Loop) → IsFair s → untried ids s.attempted_instances ≤ n → Finished (leave s))
        → ((s : Loop) → IsFair s → untried ids s.attempted_instances < n → Finished (stay s))
        → Progress n m
        → Finished (follow leave stay m)
    follow-Finished n leave stay (next_target s) l k p = l s p.0 p.1
    follow-Finished n leave stay (again s) l k p = k s p.0 p.1
    follow-Finished n leave stay (ends e s) l k p = p

    failover-Finished :
        (fuel : ℕ) (ts : List Target) (s : Loop)
        → IsFair s
        → untried ids s.attempted_instances ≤ fuel
        → Finished (failover env excluded exact fuel ts s)
    unfolding failover IsFair
    failover-Finished fuel [] s h l = (h.1, refl)
    failover-Finished zero (t ∷ ts) s h l =
        follow-Finished (untried ids s.attempted_instances) (failover env excluded exact zero ts)
          (λ s'. (endless, s')) (round env excluded exact t s)
          (λ s' f m. failover-Finished zero ts s' f (omega arith)) (λ s' f m. absurd (omega arith))
          (round-Progress t s h)
    failover-Finished (suc fuel) (t ∷ ts) s h l =
        follow-Finished (untried ids s.attempted_instances)
          (failover env excluded exact (suc fuel) ts) (failover env excluded exact fuel (t ∷ ts))
          (round env excluded exact t s)
          (λ s' f m. failover-Finished (suc fuel) ts s' f (omega arith))
          (λ s' f m. failover-Finished fuel (t ∷ ts) s' f (omega arith)) (round-Progress t s h)

  untried_all : (xs : List String) → untried xs [] ≤ length xs
  untried_all [] = omega arith
  untried_all (x ∷ xs) = omega (arith, untried_all xs)

  -- Where every instance that is ever registered has one of the ids, and the primary one has one too
  -- and is not excluded: with as much fuel as there are ids the two loops end, and no instance was
  -- tried twice, and none that is excluded, whatever the request meets.
  pub failover_ends :
      (known : (n : ℕ) (k : String) (i : ModelInstance)
        → lookup k (env.registry n) ≡ some i
        → contains i.instance_id ids ≡ true)
      (ts : List Target) (primary : ModelInstance)
      → contains primary.instance_id ids ≡ true
      → contains primary.instance_id excluded ≡ false
      → TriedOnce
          (failover env excluded exact (length ids) ts (started primary)).1.attempted_instances
        × (is_endless (failover env excluded exact (length ids) ts (started primary)).0 ≡ false)
  unfolding IsFair MayTry TriedOnce IsDistinct
  failover_ends known ts primary h allowed =
      failover-Finished known (length ids) ts (started primary) ((h, allowed), (tt, tt))
        (untried_all ids)
