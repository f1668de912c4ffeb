-- ===== src/Bdd/Cube.antt =====
-- The binary encoding of vertex numbers.
use cyclist.Base.{ℕ, zero, suc, ◌/◌, ◌%◌, ◌<◌, ◌^◌, ◌≡◌, ◌==◌, Bool, arith}

-- Bit `i` of `l`, as the loop of `create_vertex` meets it.
unfoldable pub test_bit : ℕ → ℕ → Bool
test_bit l zero = l % 2 == 1
test_bit l (suc i) = test_bit (l / 2) i

same_parity : (a b : ℕ) → (a % 2 == 1) ≡ (b % 2 == 1) → a % 2 ≡ b % 2
same_parity a b h = ground arith

-- Numbers of `k` bits that agree on each bit are equal.
pub test_bit-injective :
    (k a b : ℕ) → a < 2 ^ k → b < 2 ^ k → ((i : ℕ) → i < k → test_bit a i ≡ test_bit b i) → a ≡ b
unfolding test_bit
test_bit-injective zero a b ha hb h = omega arith
test_bit-injective (suc k) a b ha hb h =
    let low = same_parity a b (h 0 (omega arith)) in
    let high =
      test_bit-injective k (a / 2) (b / 2) (omega arith) (omega arith)
        (λ i lt. h (suc i) (omega arith)) in
    omega arith
