-- ===== src/Agent.antt =====
-- tokenity/node_agent/agent.py, in parts: what the agent decides, with the network, the processes and
-- the clock as arguments.
pub mod Gateway
pub mod Handoff
pub mod Ports
pub mod Quorum
pub mod Reconcile
pub mod Orphans
use tokenity.Common.{ℕ, zero, suc, ◌+◌, List, [], ◌∷◌}

-- `range(start, start + count)`
unfoldable pub range : ℕ → ℕ → List ℕ
range start zero = []
range start (suc count) = start ∷ range (start + 1) count
