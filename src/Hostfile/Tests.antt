-- ===== src/Hostfile/Tests.antt =====
-- Two nodes with a Thunderbolt link.
use tokenity.Common.{
  ◌≡◌, refl, Bool, false, length, List, [], ◌∷◌, none, some, String, ◌==◌, string_eq,
}
use tokenity.Errors.{err, ok, hostfile_error}
use tokenity.Hostfile.{
  ClusterNode, Row, jaccl, build_hostfile, build_jaccl_hostfile, jaccl_rows, rdma_row, row_ips,
  validate_jaccl_readiness, problems_from, node_problems,
}
use tokenity.Hostfile.Rows.{AllRows, build_hostfile-AllRows}

abbrev is_local : String → Bool
is_local s = s == "127.0.0.1"

abbrev node : String → String → ClusterNode
node name ip = record {
  id = name;
  agent_url = none;
  lan_ip = none;
  rdma_ip = some ip;
  rdma_devices = "rdma_en2" ∷ [];
  rdma_matrix_row = none;
}

abbrev pair : List ClusterNode
pair = node "a" "10.0.0.1" ∷ node "b" "10.0.0.2" ∷ []

abbrev rows : List Row
rows =
    record { ips = "10.0.0.1" ∷ []; rdma = none ∷ some "rdma_en2" ∷ [] }
    ∷ record { ips = []; rdma = some "rdma_en2" ∷ none ∷ [] }
    ∷ []

rows_lem : build_hostfile is_local pair jaccl ≡ ok rows
unfolding build_hostfile build_jaccl_hostfile jaccl_rows rdma_row row_ips validate_jaccl_readiness
    problems_from node_problems
rows_lem = refl

loopback_refused :
    build_hostfile is_local (node "a" "127.0.0.1" ∷ node "b" "10.0.0.2" ∷ []) jaccl
    ≡ err hostfile_error
unfolding build_hostfile build_jaccl_hostfile jaccl_rows rdma_row row_ips validate_jaccl_readiness
    problems_from node_problems
loopback_refused = refl

build_hostfile-AllRows_example : (length rows ≡ 2) × AllRows 2 0 rows
build_hostfile-AllRows_example = build_hostfile-AllRows is_local pair false rows rows_lem
