-- ===== src/Tests/Shared.antt =====
-- The election and the comparison of shared state, and the bandwidth store, at concrete inputs.
use pccl.Common.{
  ◌≡◌, refl, true, false, ◌&&◌, not, [], ◌∷◌, none, some, if◌then◌else◌, ◌==◌, nat_eq, lookup,
  length, all, arith,
}
use pccl.Net.{ipv4, inet_eq}
use pccl.Bandwidth.{BandwidthStore, BwPeer, store_bandwidth, get_bandwidth_mbps}
use pccl.Bandwidth.Laws.{get-store_bandwidth}
use pccl.Master.State.{MasterState, initial, SharedStateHashEntry, hash_simple, successful_match}
use pccl.Master.SharedState.{elect_shared_state_mask, winner_of, max_priority}
use pccl.Master.Audit.{Audit, compare_entries}
use pccl.Master.SharedState.Election.{
  Stands, is_beaten, candidates_of, poll_of, elect_shared_state_mask-winner,
  elect_shared_state_mask-candidates,
}
use pccl.Master.Audit.Compare.{compare_entries-short, compare_entries-long, compare_entries_self}

abbrev pub weight : SharedStateHashEntry
weight = record {
  key = b'w' ∷ [];
  hash = 11;
  hash_type = hash_simple;
  data_size = 4;
  data_type = 0;
  allow_content_inequality = false;
}

abbrev bias : SharedStateHashEntry
bias = record {
  key = b'b' ∷ [];
  hash = 12;
  hash_type = hash_simple;
  data_size = 4;
  data_type = 0;
  allow_content_inequality = false;
}

abbrev campaign : MasterState
campaign = record initial { shared_state_mask_candidates = (0, (7, weight ∷ []) ∷ []) ∷ [] }

campaign-won : (elect_shared_state_mask 0 campaign).1 ≡ true
campaign-won = elect_shared_state_mask-candidates 0 campaign

elect_shared_state_mask-candidates_example :
    (elect_shared_state_mask 0 campaign).1 ≡ not (length (candidates_of 0 campaign) == 0)
elect_shared_state_mask-candidates_example = elect_shared_state_mask-candidates 0 campaign

elect_shared_state_mask-winner_example :
    (lookup 0 (elect_shared_state_mask 0 campaign).0.shared_state_mask
      ≡ some (winner_of (poll_of 0 campaign)).0)
    × Stands
        (max_priority (poll_of 0 campaign) 0)
        (winner_of (poll_of 0 campaign)).0
        (winner_of (poll_of 0 campaign)).1
        (poll_of 0 campaign)
    × (all
          (is_beaten (max_priority (poll_of 0 campaign) 0) (winner_of (poll_of 0 campaign)).1)
          (poll_of 0 campaign)
        ≡ true)
elect_shared_state_mask-winner_example = elect_shared_state_mask-winner 0 campaign campaign-won

abbrev blank : Audit
blank = record { hashes = []; hash_types = []; dirty_keys = [] }

compare_entries-short_example :
    compare_entries 7 (weight ∷ bias ∷ []) (weight ∷ []) successful_match blank ≡ none
compare_entries-short_example = compare_entries-short 7 (weight ∷ []) bias [] successful_match blank

compare_entries-long_run :
    ¬ (compare_entries 7 (weight ∷ []) (bias ∷ []) successful_match blank ≡ none)
compare_entries-long_run =
    compare_entries-long 7 (weight ∷ []) (bias ∷ []) successful_match blank (omega arith)

compare_entries_self_example :
    compare_entries 7 (weight ∷ bias ∷ []) (weight ∷ bias ∷ []) successful_match blank
    ≡ some (successful_match, blank)
compare_entries_self_example = compare_entries_self 7 (weight ∷ bias ∷ []) successful_match blank

abbrev near : BwPeer
near = record { address = ipv4 10 0 0 1; group = 0 }

abbrev far : BwPeer
far = record { address = ipv4 10 0 0 2; group = 0 }

abbrev pair : BandwidthStore
pair = record { bandwidth_map = []; registered_peers = (1, near) ∷ (2, far) ∷ (3, near) ∷ [] }

get-store_bandwidth_example :
    ((store_bandwidth 1 2 900 pair).1 ≡ true)
    × (get_bandwidth_mbps 3 2 (store_bandwidth 1 2 900 pair).0 ≡ (
        if near.address == near.address && far.address == far.address
        then some 900
        else get_bandwidth_mbps 3 2 pair))
get-store_bandwidth_example =
    get-store_bandwidth 1 2 3 2 900 near far near far pair refl refl refl refl
