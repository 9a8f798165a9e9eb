-- ===== src/Topology.antt =====
-- The optimizer of a ring: ccoip/src/cpp/topolgy_optimizer.cpp. The TSP solver and the cost of a
-- bandwidth, which is a quotient of floating point numbers, are parameters.
pub mod Nodes
pub mod Optimized
use pccl.Common.{
  ℕ, suc, Bool, true, false, ◌||◌, List, [], ◌∷◌, ◌++◌, map, Option, none, some, if◌then◌else◌,
  ◌==◌, nat_eq, lookup, contains, get_or, insert, length,
}
use pccl.Bandwidth.{BandwidthStore, get_bandwidth_mbps}

pub record TspInputGraphEdge : Type 0 where
  pub cost : ℕ
  pub from : ℕ
  pub to : ℕ

-- The input graph: the node of each peer, in the order in which they were met, and the edges.
pub record InputGraph : Type 0 where
  pub peer_to_id : List (ℕ × ℕ)
  pub edges : List TspInputGraphEdge

-- `try_emplace(peer, peer_to_id.size())`
abbrev pub try_emplace : ℕ → List (ℕ × ℕ) → List (ℕ × ℕ)
try_emplace peer ids = if contains peer ids then ids else insert peer (length ids) ids

-- The body of the two loops over the ring.
unfoldable pub add_edge : (ℕ → ℕ) → (ℕ → ℕ → Option ℕ) → ℕ → ℕ → InputGraph → InputGraph
add_edge cost bandwidth from to graph = if from == to then graph else elim (bandwidth from to) [
  | none ↦ graph
  | some bw ↦
      let ids = try_emplace to (try_emplace from graph.peer_to_id) in
      record {
        peer_to_id = ids;
        edges =
            graph.edges
            ++ (record { cost = cost bw; from = get_or 0 from ids; to = get_or 0 to ids } ∷ []);
      }
]

unfoldable pub add_edges_from : (ℕ → ℕ) → (ℕ → ℕ → Option ℕ) → ℕ → List ℕ → InputGraph → InputGraph
unfolding add_edge
add_edges_from cost bandwidth from [] graph = graph
add_edges_from cost bandwidth from (to ∷ ring) graph =
    add_edges_from cost bandwidth from ring (add_edge cost bandwidth from to graph)

unfoldable pub add_edges : (ℕ → ℕ) → (ℕ → ℕ → Option ℕ) → List ℕ → List ℕ → InputGraph → InputGraph
unfolding add_edges_from
add_edges cost bandwidth ring [] graph = graph
add_edges cost bandwidth ring (from ∷ rest) graph =
    add_edges cost bandwidth ring rest (add_edges_from cost bandwidth from ring graph)

unfoldable pub input_graph : (ℕ → ℕ) → BandwidthStore → List ℕ → InputGraph
unfolding add_edges
input_graph cost store ring =
    add_edges cost (λ a b. get_bandwidth_mbps a b store) ring ring
      (record { peer_to_id = []; edges = [] })

-- `id_to_peer[id] = peer`
unfoldable pub inverse : List (ℕ × ℕ) → List (ℕ × ℕ) → List (ℕ × ℕ)
inverse [] acc = acc
inverse ((peer, id) ∷ ids) acc = inverse ids (insert id peer acc)

-- `id_to_peer[tour[i]]`, which is the zero uuid where there is no such node.
abbrev pub peers_of : List (ℕ × ℕ) → List ℕ → List ℕ
peers_of id_to_peer tour = map (λ id. get_or 0 id id_to_peer) tour

-- What a solver answers: the tour; whether it is optimal; whether it improves the one it was given.
pub record Solution : Type 0 where
  pub tour : List ℕ
  pub is_optimal : Bool
  pub has_improved : Bool

-- The solver's two functions; none where their status is not a success.
pub record Solver : Type 0 where
  pub tsp_asymmetric_solve : List TspInputGraphEdge → Option Solution
  pub tsp_asymmetric_improve_solution : List TspInputGraphEdge → List ℕ → Option Solution

-- `OptimizeTopology`: the new ring and whether it is optimal.
unfoldable pub optimize_topology :
    Solver → (ℕ → ℕ) → BandwidthStore → List ℕ → Option (List ℕ × Bool)
unfolding input_graph inverse
optimize_topology solver cost store ring =
    let graph = input_graph cost store ring in
    if length ring == 1
    then some (ring, false)
    else elim (solver.tsp_asymmetric_solve graph.edges) [
      | none ↦ none
      | some solution ↦
          some (peers_of (inverse graph.peer_to_id []) solution.tour, solution.is_optimal)
    ]

-- `ImproveTopologyMoonshot`: the new ring, whether it is optimal, and whether it is better. A peer
-- with no edge is given the node 0 in the initial tour.
unfoldable pub improve_topology_moonshot :
    Solver → (ℕ → ℕ) → BandwidthStore → List ℕ → Option (List ℕ × Bool × Bool)
unfolding input_graph inverse
improve_topology_moonshot solver cost store ring =
    let graph = input_graph cost store ring in
    let initial = map (λ peer. get_or 0 peer graph.peer_to_id) ring in
    if length ring == 1
    then some (ring, false, false)
    else elim (solver.tsp_asymmetric_improve_solution graph.edges initial) [
      | none ↦ none
      | some s ↦ some (
        peers_of (inverse graph.peer_to_id []) s.tour,
        s.is_optimal,
        s.has_improved || s.is_optimal,
      )
    ]
