-- ===== src/Tests/Optimizing.antt =====
-- Two peers whose bandwidths are measured.
use mathlib.Core.List.{Perm}
use mathlib.Core.List.Perm
use pccl.Common.{ℕ, ◌≡◌, refl, true, List, [], ◌∷◌, none, some, nat_eq}
use pccl.Net.{ipv4, inet_eq, inet_beq}
use pccl.Bandwidth.{BandwidthStore, empty_store, register_peer, store_bandwidth, get_bandwidth_mbps}
use pccl.Topology.{Solver, Solution, optimize_topology}
use pccl.Topology.Nodes.{has_value}
use pccl.Topology.Optimized.{optimize_topology-Perm}

abbrev measured : BandwidthStore
measured =
    (store_bandwidth 9 7 200
      (store_bandwidth 7 9 100
        (register_peer 9 (ipv4 10 0 0 2) 0
          (register_peer 7 (ipv4 10 0 0 1) 0 empty_store).0).0).0).0

abbrev tour : Solution
tour = record { tour = 1 ∷ 0 ∷ []; is_optimal = true; has_improved = true }

abbrev solver : Solver
solver = record {
  tsp_asymmetric_solve = λ edges. some tour;
  tsp_asymmetric_improve_solution = λ edges initial. none;
}

abbrev cost : ℕ → ℕ
cost bandwidth = 1000

measured-has_value : has_value (get_bandwidth_mbps 7 9 measured) ≡ true
unfolding get_bandwidth_mbps store_bandwidth register_peer inet_beq
measured-has_value = refl

optimize_topology-Perm_example :
    (ring : List ℕ) × (optimize_topology solver cost measured (7 ∷ 9 ∷ []) ≡ some (ring, true))
    × Perm ring (7 ∷ 9 ∷ [])
optimize_topology-Perm_example =
    optimize_topology-Perm solver cost measured 7 9 [] tour (refl, (refl, tt))
      (measured-has_value, tt) refl (Perm.swap 0 1 [])
