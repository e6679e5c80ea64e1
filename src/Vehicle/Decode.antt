-- ===== src/Vehicle/Decode.antt =====
-- The decoders of the messages: `decode_sas11` to `decode_tpms11`.
use supercombo_k.Base.{
  ℕ, ◌+◌, ◌-◌, ◌%◌, ◌^◌, Bool, not, ◌||◌, List, ◌==◌, ltb, if◌then◌else◌, test_bit,
}
use supercombo_k.Base.Int.{ℤ, pos, negsuc, ◌-ℤ◌}
use supercombo_k.Base.Floats.{Floats}
use supercombo_k.Can.Signal.{get_signal_le}
use supercombo_k.Hyundai.Lkas11.{is_set, byte_at}

-- The cast of a 32-bit number to `int32_t`.
abbrev pub int32_of : ℕ → ℤ
int32_of n = if ltb n (2 ^ 31) then pos n else negsuc (2 ^ 32 - 1 - n)

-- `bits` lies between 1 and 31 in every call.
unfoldable pub sign_extend : ℕ → ℕ → ℤ
sign_extend raw bits =
    if not (test_bit raw (bits - 1))
    then int32_of raw
    else int32_of ((raw + 2 ^ 32 - 2 ^ bits) % 2 ^ 32)

pub record Sas11Values (F : Type 0) : Type 0 where
  pub steering_angle_deg : F
  pub steering_rate_deg : F

pub record Mdps12Values : Type 0 where
  pub driver_torque : ℤ
  pub driver_torque_raw_signal : ℤ
  pub toi_unavailable : Bool
  pub toi_active : Bool
  pub toi_fault : Bool
  pub fail_state : Bool
  pub sensor_error : Bool
  pub msg_count : ℤ
  pub checksum : ℤ

pub record Esp12Values (F : Type 0) : Type 0 where
  pub yaw_rate_deg_s : F
  pub yaw_rate_rad_s : F
  pub yaw_rate_valid : Bool
  pub lat_accel_mps2 : F
  pub lat_accel_valid : Bool
  pub long_accel_mps2 : F
  pub long_accel_valid : Bool
  pub brake_pressure_bar : F

pub record WhlSpd11Values (F : Type 0) : Type 0 where
  pub speed_fl_kph : F
  pub speed_fr_kph : F
  pub speed_rl_kph : F
  pub speed_rr_kph : F

pub record Scc11Values (F : Type 0) : Type 0 where
  pub main_mode : Bool
  pub set_speed_raw : F
  pub object_valid : Bool
  pub object_distance_m : F
  pub object_relative_speed_mps : F

pub record Tcs13Values : Type 0 where
  pub brake_light : Bool
  pub brake_error : Bool
  pub driver_override : ℤ
  pub park_brake : Bool
  pub brake_pressed : Bool

pub record Tcs15Values : Type 0 where
  pub esp_disabled : Bool
  pub brake_hold : Bool

pub record EEms11Values : Type 0 where
  pub gas : ℤ
  pub gas_pressed : Bool

pub record ElectGearValues : Type 0 where
  pub gear : ℤ

pub record Cgw1Values : Type 0 where
  pub driver_door_open : Bool
  pub passenger_door_open : Bool
  pub front_door_open : Bool
  pub seatbelt_unlatched : Bool
  pub left_blinker : Bool
  pub right_blinker : Bool
  pub hazard : Bool

pub record Cgw2Values : Type 0 where
  pub rear_left_door_open : Bool
  pub rear_right_door_open : Bool
  pub rear_door_open : Bool

pub record Lca11Values : Type 0 where
  pub left_blindspot : Bool
  pub right_blindspot : Bool

pub record Tpms11Values (F : Type 0) : Type 0 where
  pub unit : ℤ
  pub pressure_fl : F
  pub pressure_fr : F
  pub pressure_rl : F
  pub pressure_rr : F
  pub warning : Bool

unfoldable pub decode_mdps12 : List ℕ → Mdps12Values
decode_mdps12 bytes = record {
  driver_torque = pos (get_signal_le bytes 0 11) -ℤ pos 1024;
  driver_torque_raw_signal = pos (get_signal_le bytes 0 11);
  toi_unavailable = is_set (get_signal_le bytes 12 1);
  toi_active = is_set (get_signal_le bytes 13 1);
  toi_fault = is_set (get_signal_le bytes 14 1);
  fail_state = is_set (get_signal_le bytes 15 1);
  sensor_error = is_set (get_signal_le bytes 37 1);
  msg_count = pos (get_signal_le bytes 16 8);
  checksum = pos (get_signal_le bytes 24 8);
}

unfoldable pub decode_tcs13 : List ℕ → Tcs13Values
decode_tcs13 bytes = record {
  brake_light = is_set (get_signal_le bytes 11 1);
  brake_error = get_signal_le bytes 43 2 == 3;
  driver_override = pos (get_signal_le bytes 45 2);
  park_brake = is_set (get_signal_le bytes 53 1);
  brake_pressed = is_set (get_signal_le bytes 55 1);
}

unfoldable pub decode_tcs15 : List ℕ → Tcs15Values
decode_tcs15 bytes = record {
  esp_disabled = is_set (get_signal_le bytes 8 2);
  brake_hold = get_signal_le bytes 29 3 == 2;
}

unfoldable pub decode_e_ems11 : List ℕ → EEms11Values
decode_e_ems11 bytes = record {
  gas = pos (get_signal_le bytes 56 8);
  gas_pressed = ltb 0 (get_signal_le bytes 56 8);
}

unfoldable pub decode_elect_gear : List ℕ → ElectGearValues
decode_elect_gear bytes = record { gear = pos (get_signal_le bytes 16 4) }

unfoldable pub decode_cgw1 : List ℕ → Cgw1Values
decode_cgw1 bytes = record {
  driver_door_open = is_set (get_signal_le bytes 8 2);
  passenger_door_open = is_set (get_signal_le bytes 35 1);
  front_door_open = is_set (get_signal_le bytes 8 2) || is_set (get_signal_le bytes 35 1);
  seatbelt_unlatched = get_signal_le bytes 10 2 == 0;
  left_blinker = is_set (get_signal_le bytes 19 2);
  right_blinker = is_set (get_signal_le bytes 62 2);
  hazard = is_set (get_signal_le bytes 33 2);
}

unfoldable pub decode_cgw2 : List ℕ → Cgw2Values
decode_cgw2 bytes = record {
  rear_left_door_open = is_set (get_signal_le bytes 24 1);
  rear_right_door_open = is_set (get_signal_le bytes 23 1);
  rear_door_open = is_set (get_signal_le bytes 24 1) || is_set (get_signal_le bytes 23 1);
}

unfoldable pub decode_lca11 : List ℕ → Lca11Values
decode_lca11 bytes = record {
  left_blindspot = is_set (get_signal_le bytes 8 2);
  right_blindspot = is_set (get_signal_le bytes 16 2);
}

module _ {F : Type 0} (f : Floats F) where
  -- static_cast<float>(get_signal_le(data, start, len)).
  abbrev signal : List ℕ → ℕ → ℕ → F
  signal bytes start len = f.of_int (pos (get_signal_le bytes start len))

  unfoldable pub decode_sas11 : List ℕ → Sas11Values F
  decode_sas11 bytes = record {
    steering_angle_deg =
        f.mul (f.of_int (sign_extend (get_signal_le bytes 0 16) 16)) (f.lit (pos 1) 1);
    steering_rate_deg = f.mul (signal bytes 16 8) (f.lit (pos 40) 1);
  }

  unfoldable pub decode_esp12 : List ℕ → Esp12Values F
  decode_esp12 bytes =
      let yaw_rate_deg_s =
        f.sub (f.mul (signal bytes 40 13) (f.lit (pos 1) 2)) (f.lit (pos 4095) 2) in
      record {
        yaw_rate_deg_s = yaw_rate_deg_s;
        yaw_rate_rad_s = f.mul yaw_rate_deg_s (f.lit (pos 17453292519943295) 18);
        yaw_rate_valid = get_signal_le bytes 54 1 == 0;
        lat_accel_mps2 =
            f.neg (f.sub (f.mul (signal bytes 0 11) (f.lit (pos 1) 2)) (f.lit (pos 1023) 2));
        lat_accel_valid = get_signal_le bytes 12 1 == 0;
        long_accel_mps2 = f.sub (f.mul (signal bytes 13 11) (f.lit (pos 1) 2)) (f.lit (pos 1023) 2);
        long_accel_valid = get_signal_le bytes 25 1 == 0;
        brake_pressure_bar = f.mul (signal bytes 26 12) (f.lit (pos 1) 1);
      }

  abbrev pub wheel_speed_scale_kph : F
  wheel_speed_scale_kph = f.lit (pos 3125) 5

  unfoldable pub decode_whl_spd11 : List ℕ → WhlSpd11Values F
  decode_whl_spd11 bytes = record {
    speed_fl_kph = f.mul (signal bytes 0 14) wheel_speed_scale_kph;
    speed_fr_kph = f.mul (signal bytes 16 14) wheel_speed_scale_kph;
    speed_rl_kph = f.mul (signal bytes 32 14) wheel_speed_scale_kph;
    speed_rr_kph = f.mul (signal bytes 48 14) wheel_speed_scale_kph;
  }

  unfoldable pub decode_scc11 : List ℕ → Scc11Values F
  decode_scc11 bytes = record {
    main_mode = is_set (get_signal_le bytes 0 1);
    set_speed_raw = signal bytes 8 8;
    object_valid = is_set (get_signal_le bytes 22 2);
    object_distance_m = f.mul (signal bytes 33 11) (f.lit (pos 1) 1);
    object_relative_speed_mps =
        f.sub (f.mul (signal bytes 44 12) (f.lit (pos 1) 1)) (f.lit (pos 1700) 1);
  }

  -- The factor of the unit: psi, kPa or bar; 0xff is no value.
  unfoldable pub tpms_pressure : ℕ → ℕ → F
  tpms_pressure unit raw =
      if raw == 255
      then f.lit (pos 0) 1
      else f.mul (f.of_int (pos raw)) (
          if unit == 1
          then f.lit (pos 72519) 5
          else (if unit == 2 then f.lit (pos 1) 1 else f.lit (pos 10) 1))

  unfoldable pub decode_tpms11 : List ℕ → Tpms11Values F
  decode_tpms11 bytes =
      let unit = get_signal_le bytes 11 2 in
      record {
        unit = pos unit;
        pressure_fl = tpms_pressure unit (byte_at bytes 2);
        pressure_fr = tpms_pressure unit (byte_at bytes 3);
        pressure_rl = tpms_pressure unit (byte_at bytes 4);
        pressure_rr = tpms_pressure unit (byte_at bytes 5);
        warning =
            is_set (get_signal_le bytes 0 2)
            || is_set (get_signal_le bytes 4 1)
            || is_set (get_signal_le bytes 5 1)
            || is_set (get_signal_le bytes 6 1)
            || is_set (get_signal_le bytes 7 1);
      }
