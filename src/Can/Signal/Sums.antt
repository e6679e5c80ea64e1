-- ===== src/Can/Signal/Sums.antt =====
-- Binary digits summed up: the number that a sequence of bits writes.
use native.Mathlib.Nat.{pow-suc, div-add-mod', div-div-eq-div-mul}
use supercombo_k.Base.{
  ℕ, zero, suc, ◌+◌, ◌*◌, ◌/◌, ◌%◌, ◌^◌, ◌≤◌, ◌<◌, ◌≡◌, refl, arith, bit_at, ap,
}

pub sum_bits : (ℕ → ℕ) → ℕ → ℕ
sum_bits f zero = 0
sum_bits f (suc n) = sum_bits f n + f n * 2 ^ n

pub sum_bits-suc : (f : ℕ → ℕ) (n : ℕ) → sum_bits f (suc n) ≡ sum_bits f n + f n * 2 ^ n
unfolding sum_bits
sum_bits-suc f n = refl

pub sum_bits-zero : (f : ℕ → ℕ) → sum_bits f 0 ≡ 0
unfolding sum_bits
sum_bits-zero f = refl

pub sum_bits-lt : (f : ℕ → ℕ) (n : ℕ) → ((k : ℕ) → f k ≤ 1) → sum_bits f n < 2 ^ n
unfolding sum_bits
sum_bits-lt f zero h = omega arith
sum_bits-lt f (suc n) h = grind (arith, sum_bits-lt f n h, h n, pow-suc 2 n)

pub sum_bits_ext :
    (f g : ℕ → ℕ) (n : ℕ) → ((k : ℕ) → k < n → f k ≡ g k) → sum_bits f n ≡ sum_bits g n
unfolding sum_bits
sum_bits_ext f g zero h = refl
sum_bits_ext f g (suc n) h =
    ground (arith, sum_bits_ext f g n (λ k p. h k (omega arith)), h n (omega arith))

-- r % 2 ^ (n + 1) is r % 2 ^ n with bit n on top.
mod_pow-suc : (r n : ℕ) → r % 2 ^ suc n ≡ r % 2 ^ n + bit_at r n * 2 ^ n
mod_pow-suc r n =
    let half = div-div-eq-div-mul r (2 ^ n) 2 in
    let quotient : r / 2 ^ n ≡ r / 2 ^ n / 2 * 2 + bit_at r n = omega arith in
    rw (pow-suc 2 n) (
      omega (
        arith,
        div-add-mod' r (2 ^ n),
        div-add-mod' r (2 ^ n * 2),
        ap (λ (t : ℕ). t * (2 ^ n * 2)) half,
        ap (λ (t : ℕ). t * 2 ^ n) quotient,
      ))

pub sum_bits-bit_at : (r n : ℕ) → sum_bits (bit_at r) n ≡ r % 2 ^ n
unfolding sum_bits
sum_bits-bit_at r zero = omega arith
sum_bits-bit_at r (suc n) = omega (arith, sum_bits-bit_at r n, mod_pow-suc r n)
