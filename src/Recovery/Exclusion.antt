-- ===== src/Recovery/Exclusion.antt =====
-- No status file stands for two instances, or for two ranks, in what tokenity/node_agent/recovery.py
-- adopts.
use tokenity.Common.{
  ℕ, ◌+◌, ◌≤◌, ◌≡◌, refl, sym, ◌∙◌, ap, true, false, Option, some, none, String, arith,
  Option-cases, inl, inr, string_eq, eq_iff, nat_beq_iff,
}
use tokenity.Recovery.{
  World, Value, null, number, text, value_beq, Identity, JournalRecord, JournalInstance,
  RuntimeStatus, StatusFile, status, unreadable, invalid, identity_beq, safe_to_adopt,
  assess_runtime, assess_file, assess_process, assess_instance, assess_recovery_record, has_ended,
  rank_differs,
}

-- The status file that the record names describes the instance of the record, with its rank, was
-- written recently, and does not say that the runtime failed or stops.
unfoldable pub IsLive : World → ℕ → ℕ → JournalRecord → JournalInstance → Type 0
IsLive w now maximum j i =
    (path : String) × (s : RuntimeStatus) × (at : ℕ) × (j.status_path ≡ some path)
    × (w.status_file path ≡ status s)
    × (s.updated_at ≡ some at)
    × (now ≤ at + maximum)
    × (identity_beq s.identity i.identity ≡ true)
    × (s.rank ≡ j.rank)
    × (has_ended s.phase ≡ false)

same_rank : (a b : Option ℕ) → rank_differs a b ≡ false → b ≡ a
same_rank none b h = cc
same_rank (some a) none h = ground arith
same_rank (some a) (some b) h = ground arith

live_of_runtime :
    (now maximum : ℕ) (j : JournalRecord) (i : JournalInstance) (s : RuntimeStatus)
    → assess_runtime now maximum j i s ≡ safe_to_adopt
    → (at : ℕ) × (s.updated_at ≡ some at)
      × (now ≤ at + maximum)
      × (identity_beq s.identity i.identity ≡ true)
      × (s.rank ≡ j.rank)
      × (has_ended s.phase ≡ false)
unfolding assess_runtime
live_of_runtime now maximum j i s h = elim (Option-cases s.updated_at) [
  | inl n ↦ absurd (ground (arith, n))
  | inr (at, n) ↦ (
    at,
    n,
    ground (arith, n),
    ground (arith, n),
    same_rank j.rank s.rank (ground (arith, n)),
    ground (arith, n),
  )
]

live_of_file :
    (now maximum : ℕ) (j : JournalRecord) (i : JournalInstance) (f : StatusFile)
    → assess_file now maximum j i f ≡ safe_to_adopt
    → (s : RuntimeStatus) × (f ≡ status s) × (assess_runtime now maximum j i s ≡ safe_to_adopt)
live_of_file now maximum j i unreadable h = cc
live_of_file now maximum j i invalid h = cc
live_of_file now maximum j i (status s) h = (s, refl, h)

process-IsLive :
    (w : World) (now maximum : ℕ) (j : JournalRecord) (i : JournalInstance) (pid : ℕ)
    (recorded : String)
    → assess_process w now maximum j i pid recorded ≡ safe_to_adopt
    → IsLive w now maximum j i
unfolding assess_process IsLive
process-IsLive w now maximum j i pid recorded h = elim (Option-cases (w.start_identity pid)) [
  | inl n ↦ absurd (ground (arith, n))
  | inr (observed, n) ↦ elim (Option-cases (w.command pid)) [
    | inl m ↦ absurd (ground (arith, n, m))
    | inr (command, m) ↦ elim (Option-cases j.status_path) [
      | inl k ↦ absurd (ground (arith, n, m, k))
      | inr (path, k) ↦
          (let (s, f, g) =
              live_of_file now maximum j i (w.status_file path) (ground (arith, n, m, k)) in
            let (at, wrote, young, same, rank, goes) = live_of_runtime now maximum j i s g in
            (path, s, at, k, f, wrote, young, same, rank, goes))
    ]
  ]
]

adopted-IsLive :
    (w : World) (now maximum : ℕ) (j : JournalRecord)
    → assess_recovery_record w now maximum j ≡ safe_to_adopt
    → (i : JournalInstance) × (j.model_instance ≡ some i) × IsLive w now maximum j i
unfolding assess_recovery_record assess_instance
adopted-IsLive w now maximum j h = elim (Option-cases j.model_instance) [
  | inl n ↦ absurd (ground (arith, n))
  | inr (i, n) ↦ elim (Option-cases j.process) [
    | inl m ↦ absurd (ground (arith, n, m))
    | inr (p, m) ↦ elim (Option-cases p.pid) [
      | inl k ↦ absurd (ground (arith, n, m, k))
      | inr (pid, k) ↦ elim (Option-cases p.start_identity) [
        | inl o ↦ absurd (ground (arith, n, m, k, o))
        | inr (recorded, o) ↦
            (i, n, process-IsLive w now maximum j i pid recorded (ground (arith, n, m, k, o)))
      ]
    ]
  ]
]

value_equal : (a b : Value) → value_beq a b ≡ true → a ≡ b
value_equal null null h = refl
value_equal (number a) (number b) h = ap number ((nat_beq_iff a b).0 h)
value_equal (text a) (text b) h = ap text ((eq_iff a b).0 h)
value_equal null (number b) h = cc
value_equal null (text b) h = cc
value_equal (number a) null h = cc
value_equal (number a) (text b) h = cc
value_equal (text a) null h = cc
value_equal (text a) (number b) h = cc

identity_equal : (a b : Identity) → identity_beq a b ≡ true → a ≡ b
identity_equal a b h =
    let i = value_equal a.instance_id b.instance_id (ground (arith, h)) in
    let o = value_equal a.operation_id b.operation_id (ground (arith, h)) in
    let m = value_equal a.model_revision b.model_revision (ground (arith, h)) in
    let w = value_equal a.world_size b.world_size (ground (arith, h)) in
    let c = value_equal a.connection_mode b.connection_mode (ground (arith, h)) in cc

some_injective : (x y : String) → some x ≡ some y → x ≡ y
some_injective x y h = cc

status_injective : (s t : RuntimeStatus) → status s ≡ status t → s ≡ t
status_injective s t h = cc

-- Two records that are both judged safe to adopt, at whatever times but with the same processes and
-- status files, and that name the same status file, are of one instance, operation, revision, world
-- size and connection mode, and of one rank.
pub adoption_exclusive :
    (w : World) (now later maximum : ℕ) (j k : JournalRecord)
    → assess_recovery_record w now maximum j ≡ safe_to_adopt
    → assess_recovery_record w later maximum k ≡ safe_to_adopt
    → j.status_path ≡ k.status_path
    → (a : JournalInstance) × (b : JournalInstance) × (j.model_instance ≡ some a)
      × (k.model_instance ≡ some b)
      × (a.identity ≡ b.identity)
      × (j.rank ≡ k.rank)
unfolding IsLive
adoption_exclusive w now later maximum j k h g same =
    let (a, m, (path, s, at, p, f, wrote, young, named, rank, goes)) =
      adopted-IsLive w now maximum j h in
    let (b, n, (path2, t, at2, q, f2, wrote2, young2, named2, rank2, goes2)) =
      adopted-IsLive w later maximum k g in
    let one : path ≡ path2 = some_injective path path2 (sym p ∙ same ∙ q) in
    let file = status_injective s t (sym f ∙ ap w.status_file one ∙ f2) in
    (
      a,
      b,
      m,
      n,
      sym (identity_equal s.identity a.identity named)
          ∙ ap (λ x. x.identity) file
          ∙ identity_equal t.identity b.identity named2,
      sym rank ∙ ap (λ x. x.rank) file ∙ rank2,
    )
