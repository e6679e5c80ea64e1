-- ===== src/Vehicle/Dispatch.antt =====
-- `update_vehicle_can_state`: a frame from the right bus, and long enough, changes the state.
use supercombo_k.Base.{
  ℕ, Bool, true, false, not, ◌&&◌, ◌||◌, List, [], ◌∷◌, ◌==◌, leb, if◌then◌else◌,
}
use supercombo_k.Base.Int.{ℤ, pos, ◌+ℤ◌, ltb_ℤ}
use supercombo_k.Base.Floats.{Floats}
use supercombo_k.Can.Frame.{
  hyundai_sas11_address, hyundai_esp12_address, hyundai_whl_spd11_address, hyundai_scc11_address,
  hyundai_scc12_address, hyundai_tcs13_address, hyundai_tcs15_address, hyundai_e_ems11_address,
  hyundai_elect_gear_address, hyundai_cgw1_address, hyundai_cgw2_address, hyundai_lca11_address,
  hyundai_tpms11_address, hyundai_lkas11_address, hyundai_clu11_address, hyundai_mdps12_address,
  powertrain_bus, mdps_bus, camera_bus,
}
use supercombo_k.Can.Signal.{get_signal_le}
use supercombo_k.Control.Inputs.{VehicleCanState}
use supercombo_k.Hyundai.Lkas11.{is_set}
use supercombo_k.Hyundai.Clu11.{decode_clu11, first_four}
use supercombo_k.Vehicle.Decode.{
  decode_sas11, decode_mdps12, decode_esp12, decode_whl_spd11, decode_scc11, decode_tcs13,
  decode_tcs15, decode_e_ems11, decode_elect_gear, decode_cgw1, decode_cgw2, decode_lca11,
  decode_tpms11,
}
use supercombo_k.Vehicle.Estimate.{update_fixed_cruise_estimate}

abbrev pub mdps_toi_unavailable_fault_frames : ℤ
mdps_toi_unavailable_fault_frames = pos 100

-- The messages by their addresses.
pub data Message : Type 0 where
  lkas11 clu11 sas11 esp12 whl_spd11 mdps12 scc11 scc12 tcs13 tcs15 e_ems11 elect_gear cgw1 cgw2
        lca11 tpms11 other :
      Message

-- The first entry with the address.
abbrev find_message : ℕ → List (ℕ × Message) → Message
find_message address [] = other
find_message address ((known, message) ∷ rest) =
    if address == known then message else find_message address rest

unfoldable pub message_of : ℕ → Message
message_of address = find_message address (
    (hyundai_lkas11_address, lkas11)
    ∷ (hyundai_clu11_address, clu11)
    ∷ (hyundai_sas11_address, sas11)
    ∷ (hyundai_esp12_address, esp12)
    ∷ (hyundai_whl_spd11_address, whl_spd11)
    ∷ (hyundai_mdps12_address, mdps12)
    ∷ (hyundai_scc11_address, scc11)
    ∷ (hyundai_scc12_address, scc12)
    ∷ (hyundai_tcs13_address, tcs13)
    ∷ (hyundai_tcs15_address, tcs15)
    ∷ (hyundai_e_ems11_address, e_ems11)
    ∷ (hyundai_elect_gear_address, elect_gear)
    ∷ (hyundai_cgw1_address, cgw1)
    ∷ (hyundai_cgw2_address, cgw2)
    ∷ (hyundai_lca11_address, lca11)
    ∷ (hyundai_tpms11_address, tpms11)
    ∷ [])

unfoldable pub expected_openpilot_bus : Message → ℕ → Bool
expected_openpilot_bus lkas11 bus = bus == camera_bus
expected_openpilot_bus mdps12 bus = bus == mdps_bus
expected_openpilot_bus sas11 bus = bus == powertrain_bus || bus == mdps_bus
expected_openpilot_bus other bus = true
expected_openpilot_bus clu11 bus = bus == powertrain_bus
expected_openpilot_bus esp12 bus = bus == powertrain_bus
expected_openpilot_bus whl_spd11 bus = bus == powertrain_bus
expected_openpilot_bus scc11 bus = bus == powertrain_bus
expected_openpilot_bus scc12 bus = bus == powertrain_bus
expected_openpilot_bus tcs13 bus = bus == powertrain_bus
expected_openpilot_bus tcs15 bus = bus == powertrain_bus
expected_openpilot_bus e_ems11 bus = bus == powertrain_bus
expected_openpilot_bus elect_gear bus = bus == powertrain_bus
expected_openpilot_bus cgw1 bus = bus == powertrain_bus
expected_openpilot_bus cgw2 bus = bus == powertrain_bus
expected_openpilot_bus lca11 bus = bus == powertrain_bus
expected_openpilot_bus tpms11 bus = bus == powertrain_bus

-- The least length that a message is read with.
unfoldable pub least_length : Message → ℕ
least_length clu11 = 4
least_length sas11 = 5
least_length tcs15 = 4
least_length tpms11 = 6
least_length _ = 8

module _ {F D : Type 0} (f : Floats F) (d : Floats D) where
  -- What the branches do.
  unfoldable pub apply_clu11 : List ℕ → D → VehicleCanState F D → VehicleCanState F D
  apply_clu11 bytes now_s state =
      let seed = first_four bytes in
      let clu = decode_clu11 f seed in
      record (update_fixed_cruise_estimate f clu
        (record state { clu11_seed = seed; has_clu11_seed = true })) {
          cluster_speed_raw = f.add clu.speed clu.speed_decimal;
          speed_unit_mph = clu.speed_unit_mph;
          clu_alive_count = clu.alive_count;
          clu11_time_s = now_s;
        }

  unfoldable pub apply_esp12 : List ℕ → D → VehicleCanState F D → VehicleCanState F D
  apply_esp12 bytes now_s state =
      let esp = decode_esp12 f bytes in
      record state {
        yaw_rate_rad_s = esp.yaw_rate_rad_s;
        yaw_rate_valid = esp.yaw_rate_valid;
        lat_accel_mps2 = esp.lat_accel_mps2;
        lat_accel_valid = esp.lat_accel_valid;
        long_accel_mps2 = esp.long_accel_mps2;
        long_accel_valid = esp.long_accel_valid;
        brake_pressure_bar = esp.brake_pressure_bar;
        esp12_time_s = now_s;
      }

  unfoldable pub apply_mdps12 : List ℕ → D → VehicleCanState F D → VehicleCanState F D
  apply_mdps12 bytes now_s state =
      let mdps = decode_mdps12 bytes in
      let error_count = if mdps.toi_unavailable then state.mdps_error_count +ℤ pos 1 else pos 0 in
      record state {
        mdps12_seed = bytes;
        has_mdps12_seed = true;
        driver_torque = mdps.driver_torque;
        mdps_toi_unavailable = mdps.toi_unavailable;
        mdps_error_count = error_count;
        mdps_hard_fault = mdps.toi_fault || mdps.fail_state || mdps.sensor_error;
        steering_fault = ltb_ℤ mdps_toi_unavailable_fault_frames error_count;
        mdps12_time_s = now_s;
      }

  unfoldable pub apply_tcs13 : List ℕ → D → VehicleCanState F D → VehicleCanState F D
  apply_tcs13 bytes now_s state =
      let tcs = decode_tcs13 bytes in
      record state {
        brake_light = tcs.brake_light;
        brake_error = tcs.brake_error;
        park_brake = tcs.park_brake;
        driver_override = tcs.driver_override;
        brake_pressed = tcs.brake_pressed;
        estimated_cruise_active = state.estimated_cruise_active && not tcs.brake_pressed;
        cruise_active =
            if tcs.brake_pressed && not state.has_scc_cruise_state
            then false
            else state.cruise_active;
        tcs13_time_s = now_s;
      }

  unfoldable pub apply_cgw1 : List ℕ → D → VehicleCanState F D → VehicleCanState F D
  apply_cgw1 bytes now_s state =
      let cgw = decode_cgw1 bytes in
      let until = d.add now_s (d.lit (pos 5) 1) in
      let left_until = if cgw.left_blinker then until else state.left_blinker_until_s in
      let right_until = if cgw.right_blinker then until else state.right_blinker_until_s in
      record state {
        driver_door_open = cgw.driver_door_open;
        passenger_door_open = cgw.passenger_door_open;
        door_open =
            cgw.driver_door_open || cgw.passenger_door_open || state.rear_left_door_open
            || state.rear_right_door_open;
        seatbelt_unlatched = cgw.seatbelt_unlatched;
        left_blinker_until_s = left_until;
        right_blinker_until_s = right_until;
        left_blinker = d.lt now_s left_until;
        right_blinker = d.lt now_s right_until;
        hazard = cgw.hazard;
        cgw1_time_s = now_s;
      }

  unfoldable pub apply_cgw2 : List ℕ → D → VehicleCanState F D → VehicleCanState F D
  apply_cgw2 bytes now_s state =
      let cgw = decode_cgw2 bytes in
      record state {
        rear_left_door_open = cgw.rear_left_door_open;
        rear_right_door_open = cgw.rear_right_door_open;
        door_open =
            state.driver_door_open || state.passenger_door_open || cgw.rear_left_door_open
            || cgw.rear_right_door_open;
        cgw2_time_s = now_s;
      }

  unfoldable pub apply_message : Message → List ℕ → D → VehicleCanState F D → VehicleCanState F D
  apply_message lkas11 bytes now_s state = record state {
    lkas11_seed = bytes;
    has_lkas11_seed = true;
    lkas11_time_s = now_s;
  }
  apply_message clu11 bytes now_s state = apply_clu11 bytes now_s state
  apply_message sas11 bytes now_s state =
      let sas = decode_sas11 f bytes in
      record state {
        steering_angle_deg = sas.steering_angle_deg;
        steering_rate_deg = sas.steering_rate_deg;
        sas11_time_s = now_s;
      }
  apply_message esp12 bytes now_s state = apply_esp12 bytes now_s state
  apply_message whl_spd11 bytes now_s state =
      let wheel = decode_whl_spd11 f bytes in
      record state {
        wheel_speed_fl_kph = wheel.speed_fl_kph;
        wheel_speed_fr_kph = wheel.speed_fr_kph;
        wheel_speed_rl_kph = wheel.speed_rl_kph;
        wheel_speed_rr_kph = wheel.speed_rr_kph;
        whl_spd11_time_s = now_s;
      }
  apply_message mdps12 bytes now_s state = apply_mdps12 bytes now_s state
  apply_message scc11 bytes now_s state =
      let scc = decode_scc11 f bytes in
      record state {
        cruise_main = scc.main_mode;
        cruise_set_speed_raw = scc.set_speed_raw;
        radar_lead_valid = scc.object_valid;
        radar_lead_distance_m = scc.object_distance_m;
        radar_lead_relative_speed_mps = scc.object_relative_speed_mps;
        scc11_time_s = now_s;
      }
  apply_message scc12 bytes now_s state = record state {
    acc_mode = pos (get_signal_le bytes 13 2);
    has_scc_cruise_state = true;
    cruise_active = is_set (get_signal_le bytes 13 2);
  }
  apply_message tcs13 bytes now_s state = apply_tcs13 bytes now_s state
  apply_message tcs15 bytes now_s state =
      let tcs = decode_tcs15 bytes in
      record state {
        esp_disabled = tcs.esp_disabled;
        brake_hold = tcs.brake_hold;
        tcs15_time_s = now_s;
      }
  apply_message e_ems11 bytes now_s state =
      let ems = decode_e_ems11 bytes in
      record state { gas = ems.gas; gas_pressed = ems.gas_pressed; e_ems11_time_s = now_s }
  apply_message elect_gear bytes now_s state = record state {
    gear = (decode_elect_gear bytes).gear;
    elect_gear_time_s = now_s;
  }
  apply_message cgw1 bytes now_s state = apply_cgw1 bytes now_s state
  apply_message cgw2 bytes now_s state = apply_cgw2 bytes now_s state
  apply_message lca11 bytes now_s state =
      let lca = decode_lca11 bytes in
      record state {
        left_blindspot = lca.left_blindspot;
        right_blindspot = lca.right_blindspot;
        lca11_time_s = now_s;
      }
  apply_message tpms11 bytes now_s state =
      let tpms = decode_tpms11 f bytes in
      record state {
        tpms_unit = tpms.unit;
        tpms_pressure_fl = tpms.pressure_fl;
        tpms_pressure_fr = tpms.pressure_fr;
        tpms_pressure_rl = tpms.pressure_rl;
        tpms_pressure_rr = tpms.pressure_rr;
        tpms_warning = tpms.warning;
        tpms11_time_s = now_s;
      }
  apply_message other bytes now_s state = state

  -- The frame is read: its bus is the expected one and it is long enough.
  unfoldable pub is_read : Message → ℕ → ℕ → Bool
  is_read message length bus =
      expected_openpilot_bus message bus && leb (least_length message) length

  unfoldable pub update_vehicle_can_state :
      ℕ → List ℕ → ℕ → ℕ → D → VehicleCanState F D → VehicleCanState F D
  update_vehicle_can_state address bytes length bus now_s state =
      let message = message_of address in
      if is_read message length bus then apply_message message bytes now_s state else state
