-- ===== src/Reduce.antt =====
-- The reduction along the ring: pipelineRingReduce of ccoip/src/cpp/reduce.cpp, of which all ranks
-- together are one function. A chunk's elements are one value; what the kernels do to it is a parameter.
pub mod Modular
pub mod Scatter
pub mod Gather
pub mod Total
pub mod Boundaries
use pccl.Common.{
  ℕ, zero, suc, ◌+◌, ◌-◌, ◌%◌, ◌/◌, Bool, true, false, ◌&&◌, List, [], ◌∷◌, Option, none, some,
  if◌then◌else◌, ◌==◌, nat_eq, ltb,
}

-- `computeChunkBoundaries`: with k chunks left, from rank r on.
unfoldable pub chunk_boundaries_from : ℕ → ℕ → ℕ → ℕ → ℕ → List (ℕ × ℕ)
chunk_boundaries_from zero base remainder r current_start = []
chunk_boundaries_from (suc k) base remainder r current_start =
    let chunk_size = base + (if ltb r remainder then 1 else 0) in
    (current_start, current_start + chunk_size)
    ∷ chunk_boundaries_from k base remainder (suc r) (current_start + chunk_size)

unfoldable pub compute_chunk_boundaries : ℕ → ℕ → List (ℕ × ℕ)
unfolding chunk_boundaries_from
compute_chunk_boundaries total_el world_size =
    chunk_boundaries_from world_size (total_el / world_size) (total_el % world_size) 0 0

-- What the kernels do: the quantization, if there is one, the reduction of a received chunk into
-- one's own, and the finalization.
pub record Kernels (A Q : Type 0) : Type 0 where
  pub is_quantized : Bool
  pub quantize : A → Q
  pub dequantize : Q → A
  pub reduce : A → A → A
  pub finalize : ℕ → A → A

-- What is sent: a chunk as it is, or quantized with its metadata.
pub data Payload (A Q : Type 0) : Type 0 where
  raw : A → Payload A Q
  encoded : Q → Payload A Q

-- A rank's buffer, chunk by chunk; the quantized data that it forwards; the chunk that it sends next.
pub record Local (A Q : Type 0) : Type 0 where
  pub chunks : ℕ → A
  pub owned_data : Option Q
  pub current_chunk_idx : ℕ

abbrev pub put : {A : Type 0} → ℕ → A → (ℕ → A) → ℕ → A
put i v f c = if c == i then v else f c

abbrev pub rx_peer_idx : ℕ → ℕ → ℕ
rx_peer_idx n rank = (rank + n - 1) % n

abbrev pub tx_chunk_idx : ℕ → ℕ → ℕ → ℕ
tx_chunk_idx n rank step = (rank + n - step) % n

abbrev pub rx_chunk_idx : ℕ → ℕ → ℕ → ℕ
rx_chunk_idx n rank step = (rank + n - step - 1) % n

module _ {A Q : Type 0} (k : Kernels A Q) (n : ℕ) where
  abbrev pub payload : A → Payload A Q
  payload a = if k.is_quantized then encoded (k.quantize a) else raw a

  abbrev pub received : Payload A Q → A
  received (raw a) = a
  received (encoded q) = k.dequantize q

  -- What a rank sends in a step of the reduce-scatter, and what it makes of what it receives.
  abbrev pub reduce_tx : ℕ → ℕ → Local A Q → Payload A Q
  reduce_tx rank step l = payload (l.chunks (tx_chunk_idx n rank step))

  abbrev pub reduce_rx : ℕ → ℕ → Payload A Q → Local A Q → Local A Q
  reduce_rx rank step p l =
      let i = rx_chunk_idx n rank step in
      record l { chunks = put i (k.reduce (l.chunks i) (received p)) l.chunks }

  abbrev pub reduce_stage : ℕ → (ℕ → Local A Q) → ℕ → Local A Q
  reduce_stage step w rank =
      reduce_rx rank step (reduce_tx (rx_peer_idx n rank) step (w (rx_peer_idx n rank))) (w rank)

  -- So many steps.
  unfoldable pub reduce_scatter : ℕ → (ℕ → Local A Q) → ℕ → Local A Q
  reduce_scatter zero w = w
  reduce_scatter (suc step) w = reduce_stage step (reduce_scatter step w)

  -- The chunk that a rank owns is replaced by what the others will make of it.
  abbrev pub settle_first : Option Q → Local A Q → Local A Q
  settle_first (some q) l = l
  settle_first none l =
      let i = l.current_chunk_idx in
      record l { chunks = put i (k.dequantize (k.quantize (l.chunks i))) l.chunks }

  abbrev pub settle_owned : Local A Q → Local A Q
  settle_owned l = if k.is_quantized then settle_first l.owned_data l else l

  abbrev pub keep_data : Payload A Q → Option Q
  keep_data (raw a) = none
  keep_data (encoded q) = some q

  abbrev pub gather_rx : Payload A Q → Local A Q → Local A Q
  gather_rx p l =
      let inc_idx = (l.current_chunk_idx + n - 1) % n in
      record {
        chunks = put inc_idx (received p) l.chunks;
        owned_data = keep_data p;
        current_chunk_idx = inc_idx;
      }

  abbrev pub begin_reduce : (ℕ → ℕ → A) → ℕ → Local A Q
  begin_reduce src rank = record { chunks = src rank; owned_data = none; current_chunk_idx = 0 }

  abbrev pub begin_gather : (ℕ → Local A Q) → ℕ → Local A Q
  begin_gather w rank = record (w rank) { owned_data = none; current_chunk_idx = (rank + 1) % n }

  -- Quantized data that was received is forwarded from the memory that the next data is received
  -- into, piece by piece in turn: what a send of a step carries off, of a rank and of what the rank
  -- has, is a parameter.
  module _ (carried : ℕ → ℕ → Q → Q) where
    abbrev pub forward : ℕ → ℕ → Option Q → A → Payload A Q
    forward step rank none a = encoded (k.quantize a)
    forward step rank (some q) a = encoded (carried step rank q)

    abbrev pub gather_tx : ℕ → ℕ → Local A Q → Payload A Q
    gather_tx step rank l =
        if k.is_quantized
        then forward step rank l.owned_data (l.chunks l.current_chunk_idx)
        else raw (l.chunks l.current_chunk_idx)

    abbrev pub gather_stage : ℕ → (ℕ → Local A Q) → ℕ → Local A Q
    gather_stage step w rank =
        let peer = rx_peer_idx n rank in
        gather_rx (gather_tx step peer (w peer)) (settle_owned (w rank))

    unfoldable pub allgather : ℕ → (ℕ → Local A Q) → ℕ → Local A Q
    allgather zero w = w
    allgather (suc step) w = gather_stage step (allgather step w)

    -- `pipelineRingReduce` of all ranks, of which no stage fails: what each rank's chunk is at the
    -- end.
    unfoldable pub pipeline_ring_reduce : (ℕ → ℕ → A) → ℕ → ℕ → A
    unfolding reduce_scatter allgather
    pipeline_ring_reduce src rank chunk =
        let reduced = reduce_scatter (n - 1) (begin_reduce src) in
        let gathered = allgather (n - 1) (begin_gather reduced) in
        if ltb n 2
        then k.finalize n (src rank chunk)
        else k.finalize n ((gathered rank).chunks chunk)
