-- ===== src/Can/Signal.antt =====
-- `get_signal_le` and `set_signal_le` of src/can_frame.h, as the loops over bit numbers that they are.
-- `raw` is a word of 32 bits. A read outside the array is 0 here, a write there changes nothing, and a
-- shift of the word by 32 or more gives 0; no caller makes one of them.
pub mod Sums
pub mod Laws
use native.Mathlib.Nat.{div-eq_of_lt}
use native.Mathlib.Numerals.{add-one}
use supercombo_k.Base.{
  ℕ, zero, suc, ◌+◌, ◌-◌, ◌*◌, ◌/◌, ◌%◌, ◌^◌, ◌≤◌, ◌<◌, ◌≡◌, refl, sym, ap, ◌∙◌, ◌⊎◌, inl, inr,
  Bool, true, false, List, [], ◌∷◌, arith, length, get_or, set, All, bit_at, test_bit, with_bit,
  without_bit, ltb, leb, ◌==◌, ◌&&◌, if◌then◌else◌, length-set, get_or-set_self, get_or-set_ne,
  All-set, All-get_or, bit_at-with_bit, bit_at-without_bit, with_bit-lt, without_bit-le, Bool-cases,
}
use Sums.{sum_bits, sum_bits-suc, sum_bits-zero, sum_bits-lt, sum_bits_ext, sum_bits-bit_at}

abbrev pub u32_mod : ℕ
u32_mod = 2 ^ 32

-- raw |= 1U << i for each set bit of the field, from bit i on, with `left` bits to go.
get_loop : List ℕ → ℕ → ℕ → ℕ → ℕ → ℕ
get_loop bytes start zero i raw = raw
get_loop bytes start (suc left) i raw =
    let bit = start + i in
    get_loop bytes start left (i + 1)
      (if test_bit (get_or bytes (bit / 8) 0) (bit % 8) then with_bit raw i % u32_mod else raw)

pub get_signal_le : List ℕ → ℕ → ℕ → ℕ
unfolding get_loop
get_signal_le bytes start len = get_loop bytes start len 0 0

-- The body of the loop: bit number `bit` of the array becomes bit i of `raw`.
pub store_bit : List ℕ → ℕ → ℕ → ℕ → List ℕ
store_bit bytes bit i raw =
    let byte = get_or bytes (bit / 8) 0 in
    set bytes (bit / 8)
      (if test_bit raw i then with_bit byte (bit % 8) else without_bit byte (bit % 8))

pub set_loop : List ℕ → ℕ → ℕ → ℕ → ℕ → List ℕ
set_loop bytes start zero i raw = bytes
set_loop bytes start (suc left) i raw =
    set_loop (store_bit bytes (start + i) i raw) start left (i + 1) raw

pub set_signal_le : List ℕ → ℕ → ℕ → ℕ → List ℕ
unfolding set_loop store_bit
set_signal_le bytes start len raw = set_loop bytes start len 0 (raw % u32_mod)

abbrev pub IsByte : ℕ → Type 0
IsByte b = b < 256

-- The data of a classic CAN frame.
abbrev pub IsPayload : List ℕ → Type 0
IsPayload bytes = (length bytes ≡ 8) × All IsByte bytes

-- Bit n of the array, counted from the low bit of byte 0.
pub data_bit : List ℕ → ℕ → ℕ
data_bit bytes n = bit_at (get_or bytes (n / 8) 0) (n % 8)

pub data_bit-le : (bytes : List ℕ) (n : ℕ) → data_bit bytes n ≤ 1
unfolding data_bit
data_bit-le bytes n = omega arith

abbrev pub field_bits : List ℕ → ℕ → ℕ → ℕ
field_bits bytes start k = data_bit bytes (start + k)

-- Bit i of a word whose higher bits are 0, also where i is past its end.
with_bit-mod : (s i : ℕ) → s < 2 ^ i → with_bit (s % u32_mod) i % u32_mod ≡ (s + 2 ^ i) % u32_mod
with_bit-mod s i h =
    let high : s % u32_mod / 2 ^ i ≡ 0 = div-eq_of_lt (omega arith) in ground (arith, high)

get_loop-sum_bits :
    (bytes : List ℕ) (start left i : ℕ)
    → get_loop bytes start left i (sum_bits (field_bits bytes start) i % u32_mod)
      ≡ sum_bits (field_bits bytes start) (i + left) % u32_mod
unfolding get_loop
get_loop-sum_bits bytes start zero i =
    ap (λ n. sum_bits (field_bits bytes start) n % u32_mod) (omega arith)
get_loop-sum_bits bytes start (suc left) i =
    rw (accumulate, add-one)
      (get_loop-sum_bits bytes start left (suc i)
        ∙ ap (λ n. sum_bits (field_bits bytes start) n % u32_mod) (omega arith))
  where
    low : ℕ
    low = sum_bits (field_bits bytes start) i

    accumulate :
        (if test_bit (get_or bytes ((start + i) / 8) 0) ((start + i) % 8)
          then with_bit (low % u32_mod) i % u32_mod
          else low % u32_mod)
        ≡ sum_bits (field_bits bytes start) (suc i) % u32_mod
    accumulate =
        unfold data_bit in
        ground (
          arith,
          with_bit-mod low i (sum_bits-lt _ i (λ k. data_bit-le bytes (start + k))),
          sum_bits-suc (field_bits bytes start) i,
          data_bit-le bytes (start + i),
        )

-- A field is read as the number that its bits write, in a word of 32 bits.
pub get_signal_le_lem :
    (bytes : List ℕ) (start len : ℕ)
    → get_signal_le bytes start len ≡ sum_bits (field_bits bytes start) len % u32_mod
unfolding get_signal_le
get_signal_le_lem bytes start len =
    ap (λ n. get_loop bytes start len 0 (n % u32_mod))
      (sym (sum_bits-zero (field_bits bytes start)))
    ∙ get_loop-sum_bits bytes start len 0
    ∙ ap (λ n. sum_bits (field_bits bytes start) n % u32_mod) (omega arith)

pub get_signal_le-lt : (bytes : List ℕ) (start len : ℕ) → get_signal_le bytes start len < 2 ^ len
get_signal_le-lt bytes start len =
    rw get_signal_le_lem
      (omega (arith, sum_bits-lt (field_bits bytes start) len (λ k. data_bit-le bytes (start + k))))

store_bit-IsPayload :
    (bytes : List ℕ) (bit i raw : ℕ)
    → IsPayload bytes
    → bit < 64
    → IsPayload (store_bit bytes bit i raw)
unfolding store_bit
store_bit-IsPayload bytes bit i raw h b =
    (length-set bytes (bit / 8) _ ∙ h.0, All-set IsByte bytes (bit / 8) _ h.1 (store_byte))
  where
    byte : ℕ
    byte = get_or bytes (bit / 8) 0

    store_byte :
        IsByte (if test_bit raw i then with_bit byte (bit % 8) else without_bit byte (bit % 8))
    store_byte = ground (
      arith,
      All-get_or IsByte bytes (bit / 8) 0 h.1 (omega arith),
      with_bit-lt byte (bit % 8),
      without_bit-le byte (bit % 8),
    )

data_bit-store_bit :
    (bytes : List ℕ) (bit i raw n : ℕ)
    → IsPayload bytes
    → bit < 64
    → data_bit (store_bit bytes bit i raw) n ≡ (if bit == n then bit_at raw i else data_bit bytes n)
unfolding store_bit data_bit
data_bit-store_bit bytes bit i raw n h b = elim (Bool-cases (bit / 8 == n / 8)) [
  | inl same ↦
      let e : n / 8 ≡ bit / 8 = ground arith in
      rw (e, get_or-set_self bytes (bit / 8) (stored) 0 (omega (arith, h.0)))
        (ground (
          arith,
          All-get_or IsByte bytes (bit / 8) 0 h.1 (omega arith),
          bit_at-with_bit byte (bit % 8) (All-get_or IsByte bytes (bit / 8) 0 h.1 (omega arith))
              (omega arith) (n % 8) (omega arith),
          bit_at-without_bit byte (bit % 8) (All-get_or IsByte bytes (bit / 8) 0 h.1 (omega arith))
              (omega arith) (n % 8) (omega arith),
        ))
  | inr other ↦ rw (get_or-set_ne bytes (bit / 8) (n / 8) stored 0 (ground arith)) (ground arith)
]
  where
    byte : ℕ
    byte = get_or bytes (bit / 8) 0

    stored : ℕ
    stored = if test_bit raw i then with_bit byte (bit % 8) else without_bit byte (bit % 8)

-- The loop writes bits i, i + 1, … of `raw` into the array's bits from start + i on.
pub data_bit-set_loop :
    (bytes : List ℕ) (start left i raw n : ℕ)
    → IsPayload bytes
    → start + i + left ≤ 64
    → data_bit (set_loop bytes start left i raw) n ≡ (
        if leb (start + i) n && ltb n (start + i + left)
        then bit_at raw (n - start)
        else data_bit bytes n)
unfolding set_loop
data_bit-set_loop bytes start zero i raw n h b = ground arith
data_bit-set_loop bytes start (suc left) i raw n h b =
    let next = store_bit bytes (start + i) i raw in
    let rest =
      data_bit-set_loop next start left (i + 1) raw n
        (store_bit-IsPayload bytes (start + i) i raw h (omega arith)) (omega arith) in
    rest ∙ ground (arith, data_bit-store_bit bytes (start + i) i raw n h (omega arith))

pub set_loop-IsPayload :
    (bytes : List ℕ) (start left i raw : ℕ)
    → IsPayload bytes
    → start + i + left ≤ 64
    → IsPayload (set_loop bytes start left i raw)
unfolding set_loop
set_loop-IsPayload bytes start zero i raw h b = h
set_loop-IsPayload bytes start (suc left) i raw h b =
    set_loop-IsPayload (store_bit bytes (start + i) i raw) start left (i + 1) raw
      (store_bit-IsPayload bytes (start + i) i raw h (omega arith)) (omega arith)
