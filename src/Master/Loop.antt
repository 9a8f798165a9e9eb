-- ===== src/Master/Loop.antt =====
-- `for (auto &[_, info] : client_info)` with an early `return false`: what the loop wrote before
-- stays written.
use pccl.Common.{ℕ, Bool, true, false, List, [], ◌∷◌, Option, none, some}
use pccl.Client.{ClientInfo}
use pccl.Bandwidth.{BandwidthStore}

abbrev pub Infos : Type 0
Infos = List (ℕ × ClientInfo)

-- `none` is the early return.
unfoldable pub visit : (ClientInfo → Option ClientInfo) → Infos → Infos × Bool
visit f [] = ([], true)
visit f ((k, i) ∷ m) = elim (f i) [
  | none ↦ ((k, i) ∷ m, false)
  | some j ↦ let (m', done) = visit f m in ((k, j) ∷ m', done)
]

-- The same for a body that also writes the bandwidth store.
unfoldable pub visit_with :
    (ClientInfo → BandwidthStore → Option (ClientInfo × BandwidthStore))
    → Infos
    → BandwidthStore
    → Infos × BandwidthStore × Bool
visit_with f [] b = ([], b, true)
visit_with f ((k, i) ∷ m) b = elim (f i b) [
  | none ↦ ((k, i) ∷ m, b, false)
  | some (j, b') ↦ let (m', b'', done) = visit_with f m b' in ((k, j) ∷ m', b'', done)
]
