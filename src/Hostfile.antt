-- ===== src/Hostfile.antt =====
-- tokenity/mlx/hostfile.py: the rows of the host file that starts a distributed run, one row for
-- each node, from the addresses and the RDMA devices of the nodes.
--
-- `is_loopback_host` rests on the address parser and the resolver of the system: it is the argument
-- `loopback`. Texts and lists count as false where they are empty, as in the source.
pub mod Rows
mod Tests
use tokenity.Common.{
  ℕ, zero, suc, Bool, true, false, if◌then◌else◌, ◌==◌, ◌&&◌, ◌||◌, not, nat_beq, ltb, any, length,
  List, [], ◌∷◌, ◌++◌, Option, none, some, is_none, String, string_eq, get_or,
}
use tokenity.Errors.{Result, ok, err, hostfile_error, index_error, ◌>>=◌, ◌>>◌, raise_if}

-- `ConnectionMode`
pub data ConnectionMode : Type 0 where
  ring jaccl jaccl_ring : ConnectionMode

-- `ClusterNode`
pub record ClusterNode : Type 0 where
  pub id : String
  pub agent_url : Option String
  pub lan_ip : Option String
  pub rdma_ip : Option String
  pub rdma_devices : List String
  pub rdma_matrix_row : Option (List (Option String))

-- A row of the host file.
pub record Row : Type 0 where
  pub ips : List String
  pub rdma : List (Option String)

-- `bool(text)`
abbrev pub has_text : Option String → Bool
has_text none = false
has_text (some s) = not (s == "")

-- `first or second`
abbrev pub text_or : Option String → Option String → Option String
text_or a b = if has_text a then a else b

-- `[text] if text else []`
abbrev pub listed : Option String → List String
listed none = []
listed (some s) = if s == "" then [] else s ∷ []

abbrev pub is_empty {ℓ} : {A : Type ℓ} → List A → Bool
is_empty [] = true
is_empty (x ∷ xs) = false

-- `not node.rdma_matrix_row`
abbrev pub lacks_row : Option (List (Option String)) → Bool
lacks_row none = true
lacks_row (some row) = is_empty row

-- What `validate_jaccl_readiness` reports, with the node's id.
pub data Problem : Type 0 where
  missing_rdma_ip missing_rdma_device matrix_row_length matrix_self_entry : String → Problem

abbrev pub reported_if : Bool → Problem → List Problem
reported_if true p = p ∷ []
reported_if false p = []

abbrev pub matrix_problems : ℕ → ℕ → ClusterNode → List Problem
matrix_problems world index n = elim n.rdma_matrix_row [
  | none ↦ []
  | some row ↦
      (if not (nat_beq (length row) world)
        then matrix_row_length n.id ∷ []
        else reported_if (not (is_none (get_or row index none))) (matrix_self_entry n.id))
]

-- The body of the loop of `validate_jaccl_readiness`.
unfoldable pub node_problems : ℕ → ℕ → ClusterNode → List Problem
node_problems world index n =
    reported_if (not (has_text n.rdma_ip)) (missing_rdma_ip n.id)
    ++ reported_if (is_empty n.rdma_devices && lacks_row n.rdma_matrix_row)
        (missing_rdma_device n.id)
    ++ matrix_problems world index n

unfoldable pub problems_from : ℕ → ℕ → List ClusterNode → List Problem
problems_from world index [] = []
problems_from world index (n ∷ ns) =
    node_problems world index n ++ problems_from world (suc index) ns

-- `validate_jaccl_readiness`
unfoldable pub validate_jaccl_readiness : List ClusterNode → List Problem
validate_jaccl_readiness ns = problems_from (length ns) 0 ns

-- `_build_ring_hostfile`
unfoldable pub build_ring_hostfile : List ClusterNode → List Row
build_ring_hostfile [] = []
build_ring_hostfile (n ∷ ns) =
    record { ips = listed (text_or n.lan_ip n.rdma_ip); rdma = [] } ∷ build_ring_hostfile ns

-- `[device if peer != index else None for peer in range(first, first + count)]`
abbrev pub device_row : String → ℕ → ℕ → ℕ → List (Option String)
device_row device index first zero = []
device_row device index first (suc count) =
    (if nat_beq first index then none else some device) ∷ device_row device index (suc first) count

abbrev pub from_devices : ℕ → ℕ → List String → Result (List (Option String))
from_devices world index [] = err index_error
from_devices world index (d ∷ ds) = ok (device_row d index 0 world)

unfoldable pub rdma_row : ℕ → ℕ → ClusterNode → Result (List (Option String))
rdma_row world index n = elim n.rdma_matrix_row [
  | some row ↦ ok row
  | none ↦ from_devices world index n.rdma_devices
]

unfoldable pub row_ips : Bool → ℕ → ClusterNode → List String
row_ips ring_ips index n =
    if ring_ips
    then listed (text_or n.rdma_ip n.lan_ip)
    else if nat_beq index 0
    then listed n.rdma_ip
    else []

unfoldable pub jaccl_rows : Bool → ℕ → ℕ → List ClusterNode → Result (List Row)
jaccl_rows ring_ips world index [] = ok []
jaccl_rows ring_ips world index (n ∷ ns) = do
  row ← rdma_row world index n
  rows ← jaccl_rows ring_ips world (suc index) ns
  ok (record { ips = row_ips ring_ips index n; rdma = row } ∷ rows)

-- `_build_jaccl_hostfile`
unfoldable pub build_jaccl_hostfile : Bool → List ClusterNode → Result (List Row)
build_jaccl_hostfile ring_ips ns = do
  raise_if (not (is_empty (validate_jaccl_readiness ns))) hostfile_error
  jaccl_rows ring_ips (length ns) 0 ns

abbrev pub rows_for : ConnectionMode → List ClusterNode → Result (List Row)
rows_for ring ns = ok (build_ring_hostfile ns)
rows_for jaccl ns = build_jaccl_hostfile false ns
rows_for jaccl_ring ns = build_jaccl_hostfile true ns

-- Does a row name an address that the node keeps to itself?
abbrev pub loops_back : (String → Bool) → List Row → Bool
loops_back loopback rows = any (λ row. any loopback row.ips) rows

-- `build_hostfile`
unfoldable pub build_hostfile :
    (String → Bool) → List ClusterNode → ConnectionMode → Result (List Row)
build_hostfile loopback ns mode = do
  raise_if (is_empty ns) hostfile_error
  rows ← rows_for mode ns
  raise_if (ltb 1 (length ns) && loops_back loopback rows) hostfile_error
  ok rows
