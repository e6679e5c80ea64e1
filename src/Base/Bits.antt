-- ===== src/Base/Bits.antt =====
-- Single bits of a number. `x & (1U << i)` is a test of the bit of weight 2 ^ i, `x |= 1U << i` sets
-- it, and `x &= ~(1U << i)` clears it; on bytes the three are compared with the native operations.
use Prim.Native.Nat.{ℕ, zero, suc, ◌+◌, ◌-◌, ◌/◌, ◌%◌, ◌^◌, ◌≤◌, ◌<◌, bit_and, bit_or}
use mathlib.Core.Path.{◌≡◌, refl}
use mathlib.Core.Bool.{Bool, true, not, ◌&&◌}
use native.Mathlib.Omega.{arith}
use mathlib.Core.Logic.{inl, inr}
use supercombo_k.Base.Tests.{Bool-cases, ltb, ltb→lt, ◌==◌, if◌then◌else◌, ==_iff}

abbrev pub bit_at : ℕ → ℕ → ℕ
bit_at x i = x / 2 ^ i % 2

abbrev pub test_bit : ℕ → ℕ → Bool
test_bit x i = bit_at x i == 1

abbrev pub with_bit : ℕ → ℕ → ℕ
with_bit x i = if test_bit x i then x else x + 2 ^ i

abbrev pub without_bit : ℕ → ℕ → ℕ
without_bit x i = if test_bit x i then x - 2 ^ i else x

pub and_true : (a b : Bool) → (a && b) ≡ true → (a ≡ true) × (b ≡ true)
and_true a b h = ground arith

-- The test passes on each number under the bound.
unfoldable pub passes_under : (bound : ℕ) → (test : ℕ → Bool) → Bool
passes_under zero test = true
passes_under (suc bound) test = passes_under bound test && test bound

pub passes_under-elim :
    (bound : ℕ) (test : ℕ → Bool) (n : ℕ)
    → passes_under bound test ≡ true
    → n < bound
    → test n ≡ true
unfolding passes_under
passes_under-elim zero test n passed lt = elim lt [ ]
passes_under-elim (suc bound) test n passed lt =
    let (below, last) = and_true (passes_under bound test) (test bound) passed in
    elim (Bool-cases (n == bound)) [
      | inl e ↦ let same : n ≡ bound = (==_iff n bound).0 e in rw same last
      | inr e ↦ passes_under-elim bound test n below (ground arith)
    ]

abbrev agree : Bool → Bool → Bool
agree a b = if a then b else not b

byte_ops : ℕ → ℕ → Bool
byte_ops x i =
    (bit_or x (2 ^ i) == with_bit x i)
    && (bit_and x (255 - 2 ^ i) == without_bit x i)
    && agree (not (bit_and x (2 ^ i) == 0)) (test_bit x i)

-- On a byte the three operations are the machine's.
byte_ops_table : passes_under 256 (λ x. passes_under 8 (λ i. byte_ops x i)) ≡ true
unfolding passes_under byte_ops
byte_ops_table = refl

-- Setting or clearing one bit of a byte leaves a byte, and leaves its other bits alone.
set_bits : ℕ → ℕ → ℕ → Bool
set_bits x i j = bit_at (with_bit x i) j == (if i == j then 1 else bit_at x j)

clear_bits : ℕ → ℕ → ℕ → Bool
clear_bits x i j = bit_at (without_bit x i) j == (if i == j then 0 else bit_at x j)

set_bits_table :
    passes_under 256 (λ x. passes_under 8 (λ i. passes_under 8 (λ j. set_bits x i j))) ≡ true
unfolding passes_under set_bits
set_bits_table = refl

clear_bits_table :
    passes_under 256 (λ x. passes_under 8 (λ i. passes_under 8 (λ j. clear_bits x i j))) ≡ true
unfolding passes_under clear_bits
clear_bits_table = refl

with_bit_table : passes_under 256 (λ x. passes_under 8 (λ i. ltb (with_bit x i) 256)) ≡ true
unfolding passes_under
with_bit_table = refl

module _ (x i : ℕ) (hx : x < 256) (hi : i < 8) where
  pub bit_at-with_bit :
      (j : ℕ) → j < 8 → bit_at (with_bit x i) j ≡ (if i == j then 1 else bit_at x j)
  bit_at-with_bit j hj = (==_iff _ _).0 (
      unfold set_bits in
      passes_under-elim 8 (set_bits x i) j
        (passes_under-elim 8 _ i (passes_under-elim 256 _ x set_bits_table hx) hi) hj)

  pub bit_at-without_bit :
      (j : ℕ) → j < 8 → bit_at (without_bit x i) j ≡ (if i == j then 0 else bit_at x j)
  bit_at-without_bit j hj = (==_iff _ _).0 (
      unfold clear_bits in
      passes_under-elim 8 (clear_bits x i) j
        (passes_under-elim 8 _ i (passes_under-elim 256 _ x clear_bits_table hx) hi) hj)

  pub with_bit-lt : with_bit x i < 256
  with_bit-lt =
      ltb→lt _ _ (passes_under-elim 8 _ i (passes_under-elim 256 _ x with_bit_table hx) hi)

pub without_bit-le : (x i : ℕ) → without_bit x i ≤ x
without_bit-le x i = ground arith
