-- ===== src/Hostfile/Rows.antt =====
-- What the host files of tokenity/mlx/hostfile.py hold, and how building one can fail.
use tokenity.Common.{
  ℕ, zero, suc, ◌+◌, ◌<◌, ◌≡◌, refl, Bool, true, false, length, List, [], ◌∷◌, ◌++◌, Option, none,
  String, if◌then◌else◌, get_or, arith, Option-cases, Bool-cases, subst, ◌⊎◌, inl, inr,
}
use tokenity.Errors.{Error, ok, err, hostfile_error}
use tokenity.Hostfile.{
  ConnectionMode, ring, jaccl, jaccl_ring, ClusterNode, Row, Problem, device_row, from_devices,
  rdma_row, jaccl_rows, node_problems, problems_from, validate_jaccl_readiness,
  build_jaccl_hostfile, build_hostfile, row_ips, loops_back, is_empty,
}

length-device_row :
    (d : String) (index first count : ℕ) → length (device_row d index first count) ≡ count
length-device_row d index first zero = refl
length-device_row d index first (suc count) =
    ground (arith, length-device_row d index (suc first) count)

device_row_self :
    (d : String) (index first k count : ℕ)
    → index ≡ k + first
    → get_or (device_row d index first count) k none ≡ none
device_row_self d index first k zero h = refl
device_row_self d index first zero (suc count) h = ground arith
device_row_self d index first (suc k) (suc count) h =
    ground (arith, device_row_self d index (suc first) k count)

-- The row of rank `index` has one entry for each rank, and none for itself.
pub IsRow : ℕ → ℕ → Row → Type 0
IsRow world index row = (length row.rdma ≡ world) × (get_or row.rdma index none ≡ none)

pub AllRows : ℕ → ℕ → List Row → Type 0
AllRows world index [] = Unit
AllRows world index (r ∷ rs) = IsRow world index r × AllRows world (suc index) rs

append-empty : (ps qs : List Problem) → ps ++ qs ≡ [] → (ps ≡ []) × (qs ≡ [])
append-empty [] qs h = (refl, h)
append-empty (p ∷ ps) qs h = cc

from_devices-IsRow :
    (world index : ℕ) (ds : List String)
    → is_empty ds ≡ false
    → (row : List (Option String)) × (from_devices world index ds ≡ ok row)
      × (length row ≡ world)
      × (get_or row index none ≡ none)
from_devices-IsRow world index [] h = cc
from_devices-IsRow world index (d ∷ ds) h = (
  device_row d index 0 world,
  refl,
  length-device_row d index 0 world,
  device_row_self d index 0 index world (omega arith),
)

-- A node without problems has a row, and it is one of its rank.
rdma_row-IsRow :
    (world index : ℕ) (n : ClusterNode)
    → node_problems world index n ≡ []
    → (row : List (Option String)) × (rdma_row world index n ≡ ok row)
      × (length row ≡ world)
      × (get_or row index none ≡ none)
unfolding rdma_row node_problems
rdma_row-IsRow world index n h = elim (Option-cases n.rdma_matrix_row) [
  | inl e ↦ rw e (from_devices-IsRow world index n.rdma_devices (ground arith))
  | inr (row, e) ↦ (row, ground arith, ground arith, ground arith)
]

jaccl_rows-AllRows :
    (ring_ips : Bool) (world index : ℕ) (ns : List ClusterNode)
    → problems_from world index ns ≡ []
    → (rows : List Row) × (jaccl_rows ring_ips world index ns ≡ ok rows)
      × (length rows ≡ length ns)
      × AllRows world index rows
unfolding jaccl_rows problems_from IsRow AllRows
jaccl_rows-AllRows ring_ips world index [] h = ([], refl, refl, tt)
jaccl_rows-AllRows ring_ips world index (n ∷ ns) h =
    let (here, later) = append-empty (node_problems world index n) _ h in
    let (row, e, size, self) = rdma_row-IsRow world index n here in
    let (rows, f, count, each) = jaccl_rows-AllRows ring_ips world (suc index) ns later in
    (
      record { ips = row_ips ring_ips index n; rdma = row } ∷ rows,
      ground arith,
      ground arith,
      ((size, self), each),
    )

of_is_empty : (ps : List Problem) → is_empty ps ≡ true → ps ≡ []
of_is_empty [] h = refl
of_is_empty (p ∷ ps) h = cc

-- Building for RDMA is refused, or gives rows of the ranks.
build_jaccl_hostfile-cases :
    (ring_ips : Bool) (ns : List ClusterNode)
    → (build_jaccl_hostfile ring_ips ns ≡ err hostfile_error)
      ⊎ ((rows : List Row) × (build_jaccl_hostfile ring_ips ns ≡ ok rows)
          × (length rows ≡ length ns)
          × AllRows (length ns) 0 rows)
unfolding build_jaccl_hostfile validate_jaccl_readiness
build_jaccl_hostfile-cases ring_ips ns =
    let ps = problems_from (length ns) 0 ns in
    elim (Bool-cases (is_empty ps)) [
      | inl e ↦
          (let (rows, f, size, each) =
              jaccl_rows-AllRows ring_ips (length ns) 0 ns (of_is_empty ps e) in
            inr (rows, ground arith, size, each))
      | inr e ↦ inl (ground arith)
    ]

-- A host file that is built for one of the two RDMA modes has one row for each node, each with one
-- entry for each rank and none for its own.
pub build_hostfile-AllRows :
    (loopback : String → Bool) (ns : List ClusterNode) (ring_ips : Bool) (rows : List Row)
    → build_hostfile loopback ns (if ring_ips then jaccl_ring else jaccl) ≡ ok rows
    → (length rows ≡ length ns) × AllRows (length ns) 0 rows
unfolding build_hostfile
build_hostfile-AllRows loopback ns true rows h = elim (build_jaccl_hostfile-cases true ns) [
  | inl e ↦ ground arith
  | inr (built, e, size, each) ↦
      subst (λ z. (length z ≡ length ns) × AllRows (length ns) 0 z) (ground arith) (size, each)
]
build_hostfile-AllRows loopback ns false rows h = elim (build_jaccl_hostfile-cases false ns) [
  | inl e ↦ ground arith
  | inr (built, e, size, each) ↦
      subst (λ z. (length z ≡ length ns) × AllRows (length ns) 0 z) (ground arith) (size, each)
]

-- Whatever the mode, a host file of several nodes that is built names no loopback address.
pub build_hostfile-loops_back :
    (loopback : String → Bool) (ns : List ClusterNode) (mode : ConnectionMode) (rows : List Row)
    → build_hostfile loopback ns mode ≡ ok rows
    → 1 < length ns
    → loops_back loopback rows ≡ false
unfolding build_hostfile
build_hostfile-loops_back loopback ns ring rows h k = ground arith
build_hostfile-loops_back loopback ns jaccl rows h k = ground arith
build_hostfile-loops_back loopback ns jaccl_ring rows h k = ground arith

-- Whatever the mode, building a host file raises no error but `HostfileError`: the first device is
-- taken only of a node that has one.
pub build_hostfile-err :
    (loopback : String → Bool) (ns : List ClusterNode) (mode : ConnectionMode) (e : Error)
    → build_hostfile loopback ns mode ≡ err e
    → e ≡ hostfile_error
unfolding build_hostfile
build_hostfile-err loopback ns ring e h = ground arith
build_hostfile-err loopback ns jaccl e h = ground (arith, build_jaccl_hostfile-cases false ns)
build_hostfile-err loopback ns jaccl_ring e h = ground (arith, build_jaccl_hostfile-cases true ns)
