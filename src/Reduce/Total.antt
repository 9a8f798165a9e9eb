-- ===== src/Reduce/Total.antt =====
-- Without a quantization, and with a reduction that is associative and commutative, the ring computes
-- what a single loop over the ranks does.
use pccl.Common.{ℕ, zero, suc, ◌+◌, ◌-◌, ◌%◌, ◌<◌, ◌≤◌, ◌≡◌, refl, ap, sym, ◌∙◌, false, arith}
use native.Mathlib.Nat.{mod-eq_of_lt, add-mod_right}
use pccl.Reduce.{Kernels, payload, received, raw, pipeline_ring_reduce}
use pccl.Reduce.Scatter.{accumulated, sent_value}
use pccl.Reduce.Gather.{pipeline_ring_reduce-agreed}

module _ {A Q : Type 0} (k : Kernels A Q) (n : ℕ) (src : ℕ → ℕ → A) where
  -- The contributions of j + 1 ranks to a chunk, from rank i on.
  unfoldable pub total : ℕ → ℕ → ℕ → A
  total c i zero = src i c
  total c i (suc j) = k.reduce (src (i + suc j) c) (total c i j)

  module _ (plain : k.is_quantized ≡ false)
      (associative : (x y z : A) → k.reduce (k.reduce x y) z ≡ k.reduce x (k.reduce y z))
      (commutative : (x y : A) → k.reduce x y ≡ k.reduce y x) where
    plain_value : (a : A) → sent_value k n src a ≡ a
    plain_value a = ap (received k n) unquantized
      where
        unquantized : payload k n a ≡ raw a
        unquantized = rw plain refl

    -- Up to the last rank.
    first_part : (c j : ℕ) → c + j < n → accumulated k n src c j ≡ total c c j
    unfolding accumulated total
    first_part c zero h = refl
    first_part c (suc j) h =
        let here : (c + suc j) % n ≡ c + suc j = mod-eq_of_lt h in
        ap (λ i. k.reduce (src i c) (sent_value k n src (accumulated k n src c j))) here
        ∙ ap (k.reduce (src (c + suc j) c))
            (plain_value (accumulated k n src c j) ∙ first_part c j (omega arith))

    wraps : (c m i : ℕ) → c + suc m ≡ i + n → i < n → (c + suc m) % n ≡ i
    wraps c m i e h = ap (λ x. x % n) e ∙ (add-mod_right i n ∙ mod-eq_of_lt h)

    -- From rank 0 on again, after the d + 1 ranks up to the last one.
    second_part :
        (c d j m : ℕ)
        → c + suc d ≡ n
        → m ≡ d + suc j
        → j < c
        → accumulated k n src c m ≡ k.reduce (total c 0 j) (total c c d)
    unfolding accumulated total
    second_part c d j zero e s h = absurd (omega arith)
    second_part c d zero (suc m) e s h =
        let same : m ≡ d = omega arith in
        ap (λ i. k.reduce (src i c) (sent_value k n src (accumulated k n src c m)))
          (wraps c m 0 (omega arith) (omega arith))
        ∙ ap (k.reduce (src 0 c)) (
            plain_value (accumulated k n src c m)
            ∙ (first_part c m (omega arith) ∙ ap (total c c) same))
    second_part c d (suc j) (suc m) e s h =
        let here : 0 + suc j ≡ suc j = omega arith in
        ap (λ i. k.reduce (src i c) (sent_value k n src (accumulated k n src c m)))
          (wraps c m (suc j) (omega arith) (omega arith) ∙ sym here)
        ∙ (ap (k.reduce (src (0 + suc j) c)) (
              plain_value (accumulated k n src c m)
              ∙ second_part c d j m e (omega arith) (omega arith))
            ∙ sym (associative (src (0 + suc j) c) (total c 0 j) (total c c d)))

    -- The loop over all ranks, cut in two.
    total-cut :
        (c j d m : ℕ) → m ≡ j + suc d → total c 0 m ≡ k.reduce (total c (suc j) d) (total c 0 j)
    unfolding total
    total-cut c j d zero e = absurd (omega arith)
    total-cut c j zero (suc m) e =
        let here : 0 + suc m ≡ suc j = omega arith in
        let same : m ≡ j = omega arith in
        ap (λ i. k.reduce (src i c) (total c 0 m)) here
        ∙ ap (λ i. k.reduce (src (suc j) c) (total c 0 i)) same
    total-cut c j (suc d) (suc m) e =
        let here : 0 + suc m ≡ suc j + suc d = omega arith in
        ap (λ i. k.reduce (src i c) (total c 0 m)) here
        ∙ (ap (k.reduce (src (suc j + suc d) c)) (total-cut c j d m (omega arith))
            ∙ sym (associative (src (suc j + suc d) c) (total c (suc j) d) (total c 0 j)))

    complete-total : (c : ℕ) → c < n → accumulated k n src c (n - 1) ≡ total c 0 (n - 1)
    complete-total zero h = first_part zero (n - 1) (omega arith)
    complete-total (suc j) h =
        let d = n - 1 - suc j in
        second_part (suc j) d j (n - 1) (omega arith) (omega arith) (omega arith)
        ∙ (commutative (total (suc j) 0 j) (total (suc j) (suc j) d)
            ∙ sym (total-cut (suc j) j d (n - 1) (omega arith)))

    -- With two ranks or more, of which no stage fails, without a quantization, whatever a send of
    -- quantized data would carry off, and with a reduction that is associative and commutative,
    -- every rank's chunk at the end is what a single loop over the ranks makes of their
    -- contributions, finalized.
    pub pipeline_ring_reduce-total :
        (carried : ℕ → ℕ → Q → Q)
        → 2 ≤ n
        → (r c : ℕ) → r < n
        → c < n
        → pipeline_ring_reduce k n carried src r c ≡ k.finalize n (total c 0 (n - 1))
    pipeline_ring_reduce-total carried h r c hr hc =
        pipeline_ring_reduce-agreed k n src carried (λ e step rank q. cc) h r c hr hc
        ∙ ap (k.finalize n) (plain_value (accumulated k n src c (n - 1)) ∙ complete-total c hc)
