-- ===== src/Supervisor/Adopt.antt =====
-- `adopt` of tokenity/process/supervisor.py: a process that an earlier agent has left is taken over.
use tokenity.Common.{
  ℕ, ◌≡◌, refl, Bool, true, false, if◌then◌else◌, ◌==◌, ◌&&◌, is_none, List, Option, none, some,
  or_default, Bool-cases, Option-cases, inl, inr, arith, String, ℤ, lookup, lookup-insert, nat_eq,
  pair_eq, option_eq, string_eq, beq_refl, nat_beq_iff, sym, ◌∙◌, ap, subst,
}
use tokenity.Supervisor.{registered}
use tokenity.Supervisor.Trace.{poll-On}
use tokenity.Supervisor.Handles.{
  Process, adopted, Os, Key, World, tick, poll, has_identity, pid_of, RoleSupervisor,
}

-- Taken over; managed already as that process of that operation; `ValueError`; `RuntimeError`.
pub data Adoption : Type 0 where
  takes_over keeps identity_changed already_managed : Adoption

abbrev pub is_same_process : ℕ → String → Process → Key → RoleSupervisor → Bool
is_same_process pid operation_id p key s =
    pid_of p == pid && or_default (lookup key s.operation_ids) none == some operation_id

abbrev pub register :
    Key → ℕ → String → List String → Option String → String → World → World × Adoption
register key pid start command log_path operation_id w = (
  record w {
    supervisor =
        registered key (adopted pid start) command log_path true (some operation_id) w.supervisor;
  },
  takes_over,
)

abbrev pub adopt_over :
    Key
    → ℕ
    → String
    → List String
    → Option String
    → String
    → Process
    → World × Option ℤ
    → World × Adoption
adopt_over key pid start command log_path operation_id p (w, some code) =
    register key pid start command log_path operation_id w
adopt_over key pid start command log_path operation_id p (w, none) =
    (w, if is_same_process pid operation_id p key w.supervisor then keeps else already_managed)

abbrev pub adopt_known :
    Os
    → Key
    → ℕ
    → String
    → List String
    → Option String
    → String
    → World
    → Option Process
    → World × Adoption
adopt_known os key pid start command log_path operation_id w none =
    register key pid start command log_path operation_id w
adopt_known os key pid start command log_path operation_id w (some p) =
    adopt_over key pid start command log_path operation_id p (poll os p w)

unfoldable pub adopt :
    Os → Key → ℕ → String → List String → Option String → String → World → World × Adoption
adopt os key pid start command log_path operation_id w =
    if has_identity (os.process_start_identity w.calls pid) start
    then adopt_known os key pid start command log_path operation_id (tick w)
        (lookup key w.supervisor.processes)
    else (tick w, identity_changed)

module _ (os : Os) (key : Key) (pid : ℕ) (start : String) (command : List String)
    (log_path : Option String) (operation_id : String) where
  -- What the answer says of the tables.
  unfoldable pub IsAdoption : World → World × Adoption → Type 0
  IsAdoption w (v, takes_over) =
      (has_identity (os.process_start_identity w.calls pid) start ≡ true)
      × (lookup key v.supervisor.processes ≡ some (adopted pid start))
      × ((other : Key)
          → (key == other) ≡ false
          → lookup other v.supervisor.processes ≡ lookup other w.supervisor.processes)
      × ((p : Process)
          → lookup key w.supervisor.processes ≡ some p
          → is_none (poll os p (tick w)).1 ≡ false)
  IsAdoption w (v, keeps) =
      (v.supervisor ≡ w.supervisor)
      × ((p : Process) × (lookup key w.supervisor.processes ≡ some p)
          × ((poll os p (tick w)).1 ≡ none)
          × (pid_of p ≡ pid))
  IsAdoption w (v, identity_changed) =
      (v.supervisor ≡ w.supervisor)
      × (has_identity (os.process_start_identity w.calls pid) start ≡ false)
  IsAdoption w (v, already_managed) =
      (v.supervisor ≡ w.supervisor)
      × ((p : Process) × (lookup key w.supervisor.processes ≡ some p)
          × ((poll os p (tick w)).1 ≡ none))

  register-IsAdoption :
      (w v : World)
      → v.supervisor ≡ w.supervisor
      → has_identity (os.process_start_identity w.calls pid) start ≡ true
      → ((p : Process)
          → lookup key w.supervisor.processes ≡ some p
          → is_none (poll os p (tick w)).1 ≡ false)
      → IsAdoption w (register key pid start command log_path operation_id v)
  unfolding IsAdoption
  register-IsAdoption w v e y h = (
    y,
    lookup-insert key key (adopted pid start) v.supervisor.processes ∙ rw (beq_refl key) refl,
    λ other n.
        lookup-insert key other (adopted pid start) v.supervisor.processes
        ∙ rw n (ap (λ s. lookup other s.processes) e),
    h,
  )

  adopt_over-IsAdoption :
      (w : World) (p : Process) (m : World × Option ℤ)
      → m ≡ poll os p (tick w)
      → m.0.supervisor ≡ w.supervisor
      → lookup key w.supervisor.processes ≡ some p
      → has_identity (os.process_start_identity w.calls pid) start ≡ true
      → IsAdoption w (adopt_over key pid start command log_path operation_id p m)
  unfolding IsAdoption
  adopt_over-IsAdoption w p (v, some code) e s k y = register-IsAdoption w v s y (λ q n.
      subst (λ r. is_none (poll os r (tick w)).1 ≡ false) (same p q (sym k ∙ n))
        (ap (λ r. is_none r.1) (sym e)))
    where
      same : (p q : Process) → some p ≡ some q → p ≡ q
      same p q h = ground (arith, h)
  adopt_over-IsAdoption w p (v, none) e s k y =
      elim (Bool-cases (is_same_process pid operation_id p key v.supervisor)) [
        | inl q ↦
            rw q
              (s, (p, k, ap (λ r. r.1) (sym e), (nat_beq_iff (pid_of p) pid).0 (ground (arith, q))))
        | inr n ↦ rw n (s, (p, k, ap (λ r. r.1) (sym e)))
      ]

  -- A process is taken over only at a call that finds it under the start time that was recorded, and
  -- only where what was under its key before is seen to have ended or, for an adopted one, `ps` says
  -- nothing about it; it is then under the key, and the other keys are as they were. In the three other
  -- cases the tables are as they were: the start time is another one, or the process under the key
  -- runs, which is the same process where that is no error.
  pub adopt-IsAdoption :
      (w : World) → IsAdoption w (adopt os key pid start command log_path operation_id w)
  unfolding adopt IsAdoption
  adopt-IsAdoption w =
      elim (Bool-cases (has_identity (os.process_start_identity w.calls pid) start)) [
        | inr n ↦ rw n (refl, n)
        | inl y ↦ elim (Option-cases (lookup key w.supervisor.processes)) [
          | inl e ↦
              rw (y, e)
                (register-IsAdoption w (tick w) refl y (λ p h. absurd (ground (arith, e, h))))
          | inr (p, e) ↦
              rw (y, e)
                (adopt_over-IsAdoption w p (poll os p (tick w)) refl
                  (poll-On os key p (tick w)).same e y)
        ]
      ]
