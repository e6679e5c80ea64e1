-- ===== src/Vehicle/Angle.antt =====
-- The steering angle is a signed field.
use native.Mathlib.Nat.{mod-eq_of_lt}
use supercombo_k.Base.{ℕ, ◌-◌, ◌^◌, ◌<◌, ◌≡◌, ap, ◌∙◌, List, arith}
use supercombo_k.Base.Int.{ℤ, pos, negsuc, ◌≤ℤ◌, ◌<ℤ◌}
use supercombo_k.Base.Floats.{Floats}
use supercombo_k.Can.Signal.{get_signal_le, set_signal_le, IsPayload}
use supercombo_k.Can.Signal.Laws.{get_signal_le-set_signal_le}
use supercombo_k.Vehicle.Decode.{sign_extend, decode_sas11}

-- Two's complement on 16 bits.
abbrev pub bits_of : ℤ → ℕ
bits_of (pos n) = n
bits_of (negsuc n) = 2 ^ 16 - 1 - n

sign_extend-bits_of : (v : ℤ) → negsuc 32767 ≤ℤ v → v <ℤ pos 32768 → sign_extend (bits_of v) 16 ≡ v
unfolding sign_extend
sign_extend-bits_of (pos n) lo hi = ground arith
sign_extend-bits_of (negsuc n) lo hi = ground arith

bits_of-lt : (v : ℤ) → v <ℤ pos 32768 → bits_of v < 2 ^ 16
bits_of-lt (pos n) hi = omega arith
bits_of-lt (negsuc n) hi = omega arith

module _ {F : Type 0} (f : Floats F) where
  -- An angle of tenths of a degree that 16 bits can carry, written in two's complement into the first
  -- two bytes of a payload, is decoded by decode_sas11 to a tenth of that number.
  pub decode_sas11-set_signal_le :
      (bytes : List ℕ) (v : ℤ)
      → IsPayload bytes
      → negsuc 32767 ≤ℤ v
      → v <ℤ pos 32768
      → (decode_sas11 f (set_signal_le bytes 0 16 (bits_of v))).steering_angle_deg
        ≡ f.mul (f.of_int v) (f.lit (pos 1) 1)
  unfolding decode_sas11
  decode_sas11-set_signal_le bytes v h lo hi =
      let raw : get_signal_le (set_signal_le bytes 0 16 (bits_of v)) 0 16 ≡ bits_of v =
        get_signal_le-set_signal_le bytes 0 16 (bits_of v) h (omega arith) (omega arith)
        ∙ mod-eq_of_lt (bits_of-lt v hi) in
      ap (λ n. f.mul (f.of_int n) (f.lit (pos 1) 1))
        (ap (λ n. sign_extend n 16) raw ∙ sign_extend-bits_of v lo hi)
