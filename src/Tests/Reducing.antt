-- ===== src/Tests/Reducing.antt =====
-- Three ranks that reduce numbers.
use pccl.Common.{ℕ, ◌+◌, ◌*◌, ◌/◌, ◌≡◌, refl, true, false, arith, length}
use pccl.Reduce.{Kernels, pipeline_ring_reduce, compute_chunk_boundaries}
use pccl.Reduce.Gather.{agreed, pipeline_ring_reduce-agreed}
use pccl.Reduce.Total.{total, pipeline_ring_reduce-total}
use pccl.Reduce.Boundaries.{Tiles, compute_chunk_boundaries-Tiles}

-- A quantization that forgets the last bit.
abbrev halves : Kernels ℕ ℕ
halves = record {
  is_quantized = true;
  quantize = λ a. a / 2;
  dequantize = λ q. q * 2;
  reduce = λ a b. a + b;
  finalize = λ n a. a;
}

abbrev sums : Kernels ℕ ℕ
sums = record halves { is_quantized = false }

abbrev src : ℕ → ℕ → ℕ
src rank chunk = rank * 5 + chunk

-- Every send carries off the data before other data overwrites it.
abbrev whole : ℕ → ℕ → ℕ → ℕ
whole step rank q = q

pipeline_ring_reduce-agreed_example :
    pipeline_ring_reduce halves 3 whole src 2 1 ≡ agreed halves 3 src 1
pipeline_ring_reduce-agreed_example =
    pipeline_ring_reduce-agreed halves 3 src whole (λ e step rank q. refl) (omega arith) 2 1
      (omega arith) (omega arith)

pipeline_ring_reduce-total_example :
    pipeline_ring_reduce sums 3 whole src 2 1 ≡ total sums 3 src 1 0 2
pipeline_ring_reduce-total_example =
    pipeline_ring_reduce-total sums 3 src refl (λ x y z. omega arith) (λ x y. omega arith) whole
      (omega arith) 2 1 (omega arith) (omega arith)

compute_chunk_boundaries-Tiles_example :
    Tiles (7 / 3) 0 7 (compute_chunk_boundaries 7 3) × (length (compute_chunk_boundaries 7 3) ≡ 3)
compute_chunk_boundaries-Tiles_example = compute_chunk_boundaries-Tiles 7 3 (omega arith)
