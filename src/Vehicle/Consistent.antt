-- ===== src/Vehicle/Consistent.antt =====
-- The fields that are computed from others agree with them.
use mathlib.Core.Path.{subst}
use supercombo_k.Base.{
  ℕ, ◌≡◌, refl, sym, ◌∙◌, Bool, true, false, not, ◌||◌, List, [], ◌∷◌, arith, if◌then◌else◌,
}
use supercombo_k.Base.Int.{ℤ, pos, +ℤ_parts, ◌≤ℤ◌, ltb_ℤ}
use supercombo_k.Base.Floats.{Floats}
use supercombo_k.Can.Signal.{get_signal_le}
use supercombo_k.Control.Inputs.{VehicleCanState}
use supercombo_k.Control.Engage.{same_ℤ}
use supercombo_k.Hyundai.Lkas11.{is_set}
use supercombo_k.Hyundai.Clu11.{decode_clu11, first_four}
use supercombo_k.Vehicle.Estimate.{update_fixed_cruise_estimate}
use supercombo_k.Vehicle.Estimated.{
  IsEstimated, update-IsEstimated, update-IsCounted, with_estimate,
}
use supercombo_k.Vehicle.Dispatch.{
  Message, lkas11, clu11, sas11, esp12, whl_spd11, mdps12, scc11, scc12, tcs13, tcs15, e_ems11,
  elect_gear, cgw1, cgw2, lca11, tpms11, other, message_of, is_read, apply_message, apply_clu11,
  apply_esp12, apply_mdps12, apply_tcs13, apply_cgw1, apply_cgw2, update_vehicle_can_state,
}
use supercombo_k.Vehicle.Times.{Received, receive, receive_all}

-- A door is open if one of the four is; the steering fault is more than 100 reports in a row; the
-- cruise is active by the car's report or else by the estimate; an active estimate has a set speed,
-- and there is none while the brake is pressed.
pub record IsAgreed
    (door driver passenger rear_left rear_right steering_fault cruise_active reported estimated
      valid brake_pressed : Bool)
    (errors acc_mode : ℤ) : Type 0 where
  pub doors : door ≡ (driver || passenger || rear_left || rear_right)
  pub errors_nonneg : pos 0 ≤ℤ errors
  pub fault : steering_fault ≡ ltb_ℤ (pos 100) errors
  pub cruise : cruise_active ≡ (if reported then not (same_ℤ acc_mode (pos 0)) else estimated)
  pub set_speed : estimated ≡ true → valid ≡ true
  pub brake : brake_pressed ≡ true → estimated ≡ false

abbrev pub IsConsistent : {F D : Type 0} → VehicleCanState F D → Type 0
IsConsistent s =
    IsAgreed s.door_open s.driver_door_open s.passenger_door_open s.rear_left_door_open
      s.rear_right_door_open s.steering_fault s.cruise_active s.has_scc_cruise_state
      s.estimated_cruise_active s.estimated_cruise_set_speed_valid s.brake_pressed
      s.mdps_error_count s.acc_mode

choose_reported :
    (b now reported old new : Bool)
    → now ≡ (if b then reported else old)
    → (if b then now else new) ≡ (if b then reported else new)
choose_reported b now reported old new e = ground arith

module _ {F D : Type 0} (f : Floats F) (d : Floats D) where
  set_same : (n : ℕ) → is_set n ≡ not (same_ℤ (pos n) (pos 0))
  set_same n = ground arith

  estimate-IsConsistent :
      (s s' : VehicleCanState F D)
      → IsEstimated s s'
      → s'.cruise_active
        ≡ (if s.has_scc_cruise_state then s.cruise_active else s'.estimated_cruise_active)
      → IsConsistent s
      → IsConsistent s'
  estimate-IsConsistent s s' e counted h =
      let same = e.same_rest in
      let kept : IsConsistent (with_estimate s s') = record {
        doors = h.doors;
        errors_nonneg = h.errors_nonneg;
        fault = h.fault;
        cruise =
            counted
            ∙ choose_reported s.has_scc_cruise_state _ _ s.estimated_cruise_active _ h.cruise;
        set_speed = e.valid_kept h.set_speed;
        brake = λ p. e.off_kept p (h.brake p);
      } in
      subst IsConsistent (sym same) kept

  tcs13-IsConsistent :
      (bytes : List ℕ) (now_s : D) (s : VehicleCanState F D)
      → IsConsistent s
      → IsConsistent (apply_tcs13 f d bytes now_s s)
  unfolding apply_tcs13
  tcs13-IsConsistent bytes now_s s h = ground arith

  mdps12-IsConsistent :
      (bytes : List ℕ) (now_s : D) (s : VehicleCanState F D)
      → IsConsistent s
      → IsConsistent (apply_mdps12 f d bytes now_s s)
  unfolding apply_mdps12
  mdps12-IsConsistent bytes now_s s h = ground (arith, +ℤ_parts s.mdps_error_count (pos 1))

  cgw1-IsConsistent :
      (bytes : List ℕ) (now_s : D) (s : VehicleCanState F D)
      → IsConsistent s
      → IsConsistent (apply_cgw1 f d bytes now_s s)
  unfolding apply_cgw1
  cgw1-IsConsistent bytes now_s s h = record {
    doors = refl;
    errors_nonneg = h.errors_nonneg;
    fault = h.fault;
    cruise = h.cruise;
    set_speed = h.set_speed;
    brake = h.brake;
  }

  cgw2-IsConsistent :
      (bytes : List ℕ) (now_s : D) (s : VehicleCanState F D)
      → IsConsistent s
      → IsConsistent (apply_cgw2 f d bytes now_s s)
  unfolding apply_cgw2
  cgw2-IsConsistent bytes now_s s h = record {
    doors = refl;
    errors_nonneg = h.errors_nonneg;
    fault = h.fault;
    cruise = h.cruise;
    set_speed = h.set_speed;
    brake = h.brake;
  }

  clu11-IsConsistent :
      (bytes : List ℕ) (now_s : D) (s : VehicleCanState F D)
      → IsConsistent s
      → IsConsistent (apply_clu11 f d bytes now_s s)
  unfolding apply_clu11
  clu11-IsConsistent bytes now_s s h =
      let clu = decode_clu11 f (first_four bytes) in
      let seeded = record s { clu11_seed = first_four bytes; has_clu11_seed = true } in
      let after : IsConsistent (update_fixed_cruise_estimate f clu seeded) =
        estimate-IsConsistent seeded (update_fixed_cruise_estimate f clu seeded)
          (update-IsEstimated f clu seeded) (update-IsCounted f clu seeded) h in
      after

  apply_message-IsConsistent :
      (m : Message) (bytes : List ℕ) (now_s : D) (s : VehicleCanState F D)
      → IsConsistent s
      → IsConsistent (apply_message f d m bytes now_s s)
  unfolding apply_message apply_esp12
  apply_message-IsConsistent scc12 bytes now_s s h = record {
    doors = h.doors;
    errors_nonneg = h.errors_nonneg;
    fault = h.fault;
    cruise = set_same (get_signal_le bytes 13 2);
    set_speed = h.set_speed;
    brake = h.brake;
  }
  apply_message-IsConsistent clu11 bytes now_s s h = clu11-IsConsistent bytes now_s s h
  apply_message-IsConsistent mdps12 bytes now_s s h = mdps12-IsConsistent bytes now_s s h
  apply_message-IsConsistent tcs13 bytes now_s s h = tcs13-IsConsistent bytes now_s s h
  apply_message-IsConsistent cgw1 bytes now_s s h = cgw1-IsConsistent bytes now_s s h
  apply_message-IsConsistent cgw2 bytes now_s s h = cgw2-IsConsistent bytes now_s s h
  apply_message-IsConsistent lkas11 bytes now_s s h = h
  apply_message-IsConsistent sas11 bytes now_s s h = h
  apply_message-IsConsistent esp12 bytes now_s s h = h
  apply_message-IsConsistent whl_spd11 bytes now_s s h = h
  apply_message-IsConsistent scc11 bytes now_s s h = h
  apply_message-IsConsistent tcs15 bytes now_s s h = h
  apply_message-IsConsistent e_ems11 bytes now_s s h = h
  apply_message-IsConsistent elect_gear bytes now_s s h = h
  apply_message-IsConsistent lca11 bytes now_s s h = h
  apply_message-IsConsistent tpms11 bytes now_s s h = h
  apply_message-IsConsistent other bytes now_s s h = h

  update_if :
      (read : Bool) (m : Message) (bytes : List ℕ) (now_s : D) (s : VehicleCanState F D)
      → IsConsistent s
      → IsConsistent (if read then apply_message f d m bytes now_s s else s)
  update_if true m bytes now_s s h = apply_message-IsConsistent m bytes now_s s h
  update_if false m bytes now_s s h = h

  -- From a consistent state, any frames, whatever their addresses, contents and buses, lead to a
  -- consistent state.
  pub receive_all-IsConsistent :
      (rs : List (Received D)) (s : VehicleCanState F D)
      → IsConsistent s
      → IsConsistent (receive_all f d rs s)
  unfolding receive_all receive update_vehicle_can_state
  receive_all-IsConsistent [] s h = h
  receive_all-IsConsistent (r ∷ rs) s h = receive_all-IsConsistent rs (receive f d r s) (
      update_if (is_read f d (message_of r.address) r.len r.bus) (message_of r.address) r.bytes
        r.time_s s h)
