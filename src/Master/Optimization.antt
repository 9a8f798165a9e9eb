-- ===== src/Master/Optimization.antt =====
-- performTopologyOptimization of ccoip/src/cpp/ccoip_master_state.cpp, which calls the optimizer.
use pccl.Common.{ℕ, Bool, true, false, List, [], Option, none, some, if◌then◌else◌}
use pccl.Topology.{Solver, optimize_topology, improve_topology_moonshot}
use pccl.Master.State.{MasterState}
use pccl.Master.Ring.{get_ring_topology, is_topology_optimal}

-- A new ring, whether it is optimal, and whether it is better.
abbrev pub Improvement : Type 0
Improvement = List ℕ × Bool × Bool

-- A ring of the first optimization counts as better.
abbrev pub as_improved : Option (List ℕ × Bool) → Option Improvement
as_improved none = none
as_improved (some (ring, optimal)) = some (ring, optimal, true)

-- none where the optimizer fails.
unfoldable pub perform_topology_optimization :
    Solver → (ℕ → ℕ) → ℕ → Bool → MasterState → MasterState × Option Improvement
unfolding get_ring_topology is_topology_optimal optimize_topology improve_topology_moonshot
perform_topology_optimization solver cost g moonshot s =
    let (t, ring) = get_ring_topology g false s in
    (
      t,
      if is_topology_optimal g t
          then some ([], false, false)
          else if moonshot
          then improve_topology_moonshot solver cost t.bandwidth_store ring
          else as_improved (optimize_topology solver cost t.bandwidth_store ring),
    )
