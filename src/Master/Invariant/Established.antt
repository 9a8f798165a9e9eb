-- ===== src/Master/Invariant/Established.antt =====
-- The end of the establishment of p2p connections keeps the invariant.
use pccl.Common.{
  ◌≡◌, refl, sym, ap, ◌∙◌, Bool, true, not, [], ◌∷◌, Option, ◌==◌, nat_eq, Unique, length, arith,
  Option-cases, inl, inr, subst,
}
use pccl.Client.{ClientInfo, state_eq, state_beq, coll_eq}
use pccl.Bandwidth.{BandwidthStore}
use mathlib.Core.Option
use pccl.Master.State.{MasterState}
use pccl.Master.Loop.{Infos, visit, visit_with}
use pccl.Master.Phases.{established_step}
use pccl.Master.Invariant.{Inv}
use pccl.Master.Invariant.Loops.{InfoOk, run_step, passes}

-- A body without what it writes to the bandwidth store.
abbrev pub without_store : Option (ClientInfo × BandwidthStore) → Option ClientInfo
without_store o = Option.map (λ r. r.0) o

pub visit_with-visit :
    (f : ClientInfo → BandwidthStore → Option (ClientInfo × BandwidthStore))
    (h : ClientInfo → Option ClientInfo)
    → ((i : ClientInfo) (b : BandwidthStore) → without_store (f i b) ≡ h i)
    → (m : Infos) (b : BandwidthStore)
    → ((visit_with f m b).0 ≡ (visit h m).0) × ((visit_with f m b).2 ≡ (visit h m).1)
unfolding visit_with visit
visit_with-visit f h same [] b = (refl, refl)
visit_with-visit f h same ((k, i) ∷ m) b = elim (Option-cases (f i b)) [
  | inl e ↦ ground (arith, same i b)
  | inr (r, e) ↦ ground (arith, same i b, visit_with-visit f h same m r.1)
]

module _ (s : MasterState) (v : Inv s) where
  -- Where the step leads a client, whatever the bandwidth store holds.
  abbrev pub client_step : Bool → ClientInfo → Option ClientInfo
  client_step failure i = without_store (established_step failure i s.bandwidth_store)

  pub client_step-without_store :
      (failure : Bool) (i : ClientInfo) (b : BandwidthStore)
      → without_store (established_step failure i b) ≡ client_step failure i
  unfolding established_step
  client_step-without_store failure i b = ground arith

  pub client_uuid-kept :
      (failure : Bool) (i : ClientInfo)
      → (run_step (client_step failure) i).client_uuid ≡ i.client_uuid
  unfolding established_step
  client_uuid-kept failure i = ground arith

  pub socket_address-kept :
      (failure : Bool) (i : ClientInfo)
      → (run_step (client_step failure) i).socket_address ≡ i.socket_address
  unfolding established_step
  socket_address-kept failure i = ground arith

  collective-kept :
      (failure : Bool) (i : ClientInfo)
      → (run_step (client_step failure) i).collective_coms_states ≡ i.collective_coms_states
  unfolding established_step
  collective-kept failure i = ground arith

  pub client_step-InfoOk :
      (failure : Bool) (i : ClientInfo)
      → InfoOk i
      → passes (client_step failure) i ≡ true
      → InfoOk (run_step (client_step failure) i)
  unfolding established_step state_beq
  client_step-InfoOk failure i o h = record {
    tags_once = subst Unique (sym (collective-kept failure i)) o.tags_once;
    busy = ap (λ m. length m == 0) (collective-kept failure i) ∙ o.busy ∙ ap not (ground arith);
    pending = λ r. ground (arith, o.pending);
  }
