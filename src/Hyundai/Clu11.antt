-- ===== src/Hyundai/Clu11.antt =====
-- CLU11, the instrument cluster with the cruise buttons: `decode_clu11`, `pack_clu11_data` and
-- `create_clu11_frame`.
use supercombo_k.Base.{ℕ, Bool, List, [], ◌∷◌}
use supercombo_k.Base.Int.{ℤ, pos}
use supercombo_k.Base.Floats.{Floats, clamp_float}
use supercombo_k.Can.Frame.{CanFrame, hyundai_clu11_address}
use supercombo_k.Can.Signal.{get_signal_le}
use supercombo_k.Can.Layout.{Field, set_fields, empty_payload}
use supercombo_k.Hyundai.Lkas11.{clamp_u32, bool_u32, field, is_set, byte_at, low_nibble}

pub record HyundaiClu11Values (F : Type 0) : Type 0 where
  pub cruise_sw_state : ℤ
  pub cruise_sw_main : ℤ
  pub sld_main_sw : ℤ
  pub parity_bit : ℤ
  pub speed_decimal : F
  pub speed : F
  pub speed_unit_mph : Bool
  pub detent_out : ℤ
  pub rheostat_level : ℤ
  pub clu_info : ℤ
  pub amp_info : ℤ
  pub alive_count : ℤ

pub record HyundaiCluCommand (F : Type 0) : Type 0 where
  pub button : ℤ
  pub speed : F
  pub frame : ℤ

-- {data[0], data[1], data[2], data[3], 0, 0, 0, 0}.
abbrev pub padded : List ℕ → List ℕ
padded bytes =
    byte_at bytes 0 ∷ byte_at bytes 1 ∷ byte_at bytes 2 ∷ byte_at bytes 3 ∷ 0 ∷ 0 ∷ 0 ∷ 0 ∷ []

-- {data[0], data[1], data[2], data[3]}.
abbrev pub first_four : List ℕ → List ℕ
first_four bytes = byte_at bytes 0 ∷ byte_at bytes 1 ∷ byte_at bytes 2 ∷ byte_at bytes 3 ∷ []

module _ {F : Type 0} (f : Floats F) where
  -- The nearest number of units, of a value cut to a range from 0.
  abbrev pub units : F → F → F → ℤ
  units unit hi value = f.lround (f.div (clamp_float f value (f.lit (pos 0) 1) hi) unit)

  -- The calls of `pack_clu11_data` in order.
  unfoldable pub clu11_fields : HyundaiClu11Values F → List Field
  clu11_fields v =
      field 0 3 (clamp_u32 v.cruise_sw_state 0 7)
      ∷ field 3 1 (clamp_u32 v.cruise_sw_main 0 1)
      ∷ field 4 1 (clamp_u32 v.sld_main_sw 0 1)
      ∷ field 5 1 (clamp_u32 v.parity_bit 0 1)
      ∷ field 6 2 (clamp_u32 (units (f.lit (pos 125) 3) (f.lit (pos 375) 3) v.speed_decimal) 0 3)
      ∷ field 8 9 (clamp_u32 (units (f.lit (pos 5) 1) (f.lit (pos 2555) 1) v.speed) 0 511)
      ∷ field 17 1 (bool_u32 v.speed_unit_mph)
      ∷ field 18 1 (clamp_u32 v.detent_out 0 1)
      ∷ field 19 5 (clamp_u32 v.rheostat_level 0 31)
      ∷ field 24 1 (clamp_u32 v.clu_info 0 1)
      ∷ field 25 1 (clamp_u32 v.amp_info 0 1)
      ∷ field 28 4 (clamp_u32 v.alive_count 0 15)
      ∷ []

  unfoldable pub pack_clu11_data : HyundaiClu11Values F → List ℕ
  pack_clu11_data v = first_four (set_fields empty_payload (clu11_fields v))

  unfoldable pub decode_clu11 : List ℕ → HyundaiClu11Values F
  decode_clu11 short_data =
      let bytes = padded short_data in
      record {
        cruise_sw_state = pos (get_signal_le bytes 0 3);
        cruise_sw_main = pos (get_signal_le bytes 3 1);
        sld_main_sw = pos (get_signal_le bytes 4 1);
        parity_bit = pos (get_signal_le bytes 5 1);
        speed_decimal = f.mul (f.of_int (pos (get_signal_le bytes 6 2))) (f.lit (pos 125) 3);
        speed = f.mul (f.of_int (pos (get_signal_le bytes 8 9))) (f.lit (pos 5) 1);
        speed_unit_mph = is_set (get_signal_le bytes 17 1);
        detent_out = pos (get_signal_le bytes 18 1);
        rheostat_level = pos (get_signal_le bytes 19 5);
        clu_info = pos (get_signal_le bytes 24 1);
        amp_info = pos (get_signal_le bytes 25 1);
        alive_count = pos (get_signal_le bytes 28 4);
      }

  pub create_clu11_frame : HyundaiClu11Values F → HyundaiCluCommand F → ℕ → CanFrame
  create_clu11_frame seed command bus =
      let values = record seed {
        cruise_sw_state = command.button;
        speed = command.speed;
        alive_count = pos (low_nibble command.frame);
      } in
      record {
        address = hyundai_clu11_address;
        bus = bus;
        len = 4;
        bytes = padded (pack_clu11_data values);
      }
