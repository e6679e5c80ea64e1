-- ===== src/Hyundai/Mdps12.antt =====
-- MDPS12, the steering feedback that is sent on with its fault bits changed: `create_mdps12_frame`.
use supercombo_k.Base.{ℕ, ◌+◌, ◌-◌, ◌%◌, List, [], ◌∷◌}
use supercombo_k.Base.Int.{ℤ, pos, negsuc}
use supercombo_k.Can.Frame.{CanFrame, hyundai_mdps12_address, hyundai_mdps12_tx_bus}
use supercombo_k.Can.Signal.{set_signal_le}

-- static_cast<uint32_t>(frame_count) & 0xffU, on two's complement.
abbrev low_byte : ℤ → ℕ
low_byte (pos n) = n % 256
low_byte (negsuc n) = 255 - n % 256

abbrev sum_bytes : List ℕ → ℕ
sum_bytes [] = 0
sum_bytes (b ∷ bytes) = b + sum_bytes bytes

pub create_mdps12_frame : List ℕ → ℤ → CanFrame
create_mdps12_frame seed frame_count =
    let flags = set_signal_le (set_signal_le seed 13 1 0) 12 1 1 in
    let bytes = set_signal_le (set_signal_le flags 16 8 (low_byte frame_count)) 24 8 0 in
    record {
      address = hyundai_mdps12_address;
      bus = hyundai_mdps12_tx_bus;
      len = 8;
      bytes = set_signal_le bytes 24 8 (sum_bytes bytes % 256);
    }
