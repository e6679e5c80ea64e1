-- ===== src/Control/Engage.antt =====
-- The engagement state machine of src/lateral_controller.cc: buttons, gates, the Panda handshake and the
-- temporary cut of the steering request. The functions that read the vehicle's state hand their results
-- over: whether the seeds are ready, whether the state is fresh, the speed and the plan's age.
pub mod Gates
pub mod Handshake
pub mod Kept
pub mod Scene
mod Tests
use supercombo_k.Base.{
  ℕ, zero, suc, ◌+◌, ◌-◌, min, Bool, true, false, not, ◌&&◌, ◌||◌, List, [], ◌∷◌, ltb, leb, ◌==◌,
  if◌then◌else◌, Text, text,
}
use supercombo_k.Base.Int.{ℤ, pos, negsuc, ltb_ℤ, max_ℤ}
use supercombo_k.Base.Floats.{Floats}
use supercombo_k.Control.Inputs.{
  SteeringParams, DrivingParams, VehicleCanState, LateralTarget, LateralPath,
}
use supercombo_k.Control.Block.{
  BlockKind, unblocked, reject, hard, transient, availability, BlockReason, no_block, not_engaged,
  controller_disabled, seeds_missing, vehicle_state_stale, speed_invalid, door_open,
  seatbelt_unlatched, esp_disabled, park_brake, brake_error, gear_not_drive, mdps_fault,
  paramsd_invalid, panda_not_ready, panda_controls_off, esp_stale, yaw_rate_invalid, stopped,
  path_invalid, lateral_plan_invalid, lateral_plan_stale, block_kind,
}

abbrev pub same_ℤ : ℤ → ℤ → Bool
same_ℤ a b = not (ltb_ℤ a b) && not (ltb_ℤ b a)

abbrev pub button_set_decel : ℤ
button_set_decel = pos 2

abbrev pub button_cancel : ℤ
button_cancel = pos 4

abbrev pub gear_drive : ℤ
gear_drive = pos 5

abbrev pub steering_pressed_min_count : ℕ
steering_pressed_min_count = 5

abbrev pub is_unblocked : BlockKind → Bool
is_unblocked unblocked = true
is_unblocked reject = false
is_unblocked hard = false
is_unblocked transient = false
is_unblocked availability = false

abbrev pub is_reject : BlockKind → Bool
is_reject unblocked = false
is_reject reject = true
is_reject hard = false
is_reject transient = false
is_reject availability = false

abbrev pub is_hard : BlockKind → Bool
is_hard unblocked = false
is_hard reject = false
is_hard hard = true
is_hard transient = false
is_hard availability = false

abbrev pub is_transient : BlockKind → Bool
is_transient unblocked = false
is_transient reject = false
is_transient hard = false
is_transient transient = true
is_transient availability = false

abbrev pub is_availability : BlockKind → Bool
is_availability unblocked = false
is_availability reject = false
is_availability hard = false
is_availability transient = false
is_availability availability = true

abbrev pub is_clear : BlockKind → Bool
is_clear kind = is_unblocked kind || is_availability kind

abbrev pub is_plan_invalid : BlockReason → Bool
is_plan_invalid lateral_plan_invalid = true
is_plan_invalid _ = false

-- The controller's members that these functions use, with the parameters and the learner's flags.
pub record LateralController (F D : Type 0) : Type 0 where
  pub force_engaged : Bool
  pub steering_params : SteeringParams F
  pub driving_params : DrivingParams F
  pub live_use_vehicle : Bool
  pub live_vehicle_valid : Bool
  pub live_calibrated : Bool
  pub engaged : Bool
  pub path_valid_since_s : D
  pub path_usable_debounced : Bool
  pub path_seen_invalid : Bool
  pub steer_availability_hold : Bool
  pub last_button : ℤ
  pub last_torque : ℤ
  pub steer_rate_limited : Bool
  pub last_disengage_s : D
  pub angle_limit_counter : ℕ
  pub fault_angle_frames : ℕ
  pub cut_steer_frames : ℕ
  pub cut_steer : Bool
  pub steering_pressed_counter : ℕ
  pub driver_steering_torque_above_timer : ℕ
  pub panda_engage_pending : Bool
  pub panda_engage_pending_s : D

-- What other parts of `update` have found out.
pub record Observed (F : Type 0) : Type 0 where
  pub seeds_ready : Bool
  pub vehicle_fresh : Bool
  pub control_speed_kph : F
  pub plan_age_s : F
  pub panda_ready : Bool
  pub panda_controls_allowed : Bool

-- The first reason whose test is true.
pub first_block : List (Bool × BlockReason) → BlockReason
first_block [] = no_block
first_block ((blocked, reason) ∷ rest) = if blocked then reason else first_block rest

-- The members that decide the engagement, as `update` changes them, and its results.
pub record Engagement (F D : Type 0) : Type 0 where
  pub controller : LateralController F D
  pub engaged : Bool
  pub active : Bool
  pub engage_rejected : Bool
  pub active_block : BlockReason

module _ {F D : Type 0} (f : Floats F) (d : Floats D) where
  -- static_cast<double>(ms) / 1000.0.
  pub seconds : ℤ → D
  seconds ms = d.div (d.of_int ms) (d.lit (pos 1000) 0)

  -- `signal_time_fresh` of src/utils_time.h.
  unfoldable pub signal_time_fresh : D → D → D → Bool
  signal_time_fresh timestamp_s now_s timeout_s =
      d.le (d.lit (pos 0) 0) timestamp_s
      && (d.le timestamp_s now_s && d.le (d.sub now_s timestamp_s) timeout_s)

  -- What the torque controller keeps is its own: its reset is not part of this state.
  pub reset_control_state : LateralController F D → LateralController F D
  reset_control_state c = record c {
    last_torque = pos 0;
    steer_rate_limited = false;
    angle_limit_counter = 0;
    fault_angle_frames = 0;
    cut_steer_frames = 0;
    cut_steer = false;
    driver_steering_torque_above_timer = 100;
  }

  pub update_button_state : LateralController F D → ℤ → D → LateralController F D
  unfolding reset_control_state
  update_button_state c button now_s =
      if same_ℤ button c.last_button
      then c
      else if same_ℤ button button_cancel
      then record (reset_control_state
          (record c { panda_engage_pending = false; engaged = false })) {
            last_disengage_s = now_s;
            last_button = button;
          }
      else if same_ℤ button (pos 0) && same_ℤ c.last_button button_set_decel
      then record c { engaged = true; last_button = button }
      else record c { last_button = button }

  -- Losing the path counts at once; getting it back takes 0.5 s.
  pub debounce_path : LateralController F D → Bool → D → LateralController F D
  debounce_path c usable now_s =
      let since =
        if d.lt c.path_valid_since_s (d.lit (pos 0) 0) then now_s else c.path_valid_since_s in
      if not usable
      then record c {
        path_valid_since_s = d.lit (negsuc 0) 0;
        path_usable_debounced = false;
        path_seen_invalid = true;
      }
      else if not c.path_usable_debounced
      then record c {
        path_valid_since_s = since;
        path_usable_debounced =
            not c.path_seen_invalid || d.le (d.lit (pos 5) 1) (d.sub now_s since);
      }
      else c

  -- The tests of `active_block_reason` in their order, each with the reason it returns.
  pub gates :
      LateralController F D
      → LateralTarget F
      → VehicleCanState F D
      → D
      → Observed F
      → List (Bool × BlockReason)
  unfolding signal_time_fresh seconds
  gates c target v now_s o =
      let p = c.steering_params in
      let timeout_s = seconds c.driving_params.vehicle_state_timeout_ms in
      let by_yaw_rate = not p.torque_use_angle in
      let no_path = not c.path_usable_debounced in
      let slow = f.lt (f.div o.control_speed_kph (f.lit (pos 36) 1)) p.min_steer_speed_mps in
      let plan_stale =
        not (target.capture_timestamp_ns == 0)
        && f.lt (f.div (f.of_int c.driving_params.model_timeout_ms) (f.lit (pos 1000) 0))
            o.plan_age_s in
      (not c.force_engaged && not c.engaged, not_engaged)
      ∷ (not p.enabled, controller_disabled)
      ∷ (not o.seeds_ready, seeds_missing)
      ∷ (not o.vehicle_fresh, vehicle_state_stale)
      ∷ (not (f.is_finite o.control_speed_kph), speed_invalid)
      ∷ (v.door_open, door_open)
      ∷ (v.seatbelt_unlatched, seatbelt_unlatched)
      ∷ (v.esp_disabled, esp_disabled)
      ∷ (v.park_brake, park_brake)
      ∷ (v.brake_error, brake_error)
      ∷ (not (same_ℤ v.gear gear_drive), gear_not_drive)
      ∷ (v.steering_fault, mdps_fault)
      ∷ (
        (c.live_use_vehicle && p.use_live_vehicle_params)
            && (not c.live_vehicle_valid && c.live_calibrated),
        paramsd_invalid,
      )
      ∷ (not o.panda_ready, panda_not_ready)
      ∷ (not o.panda_controls_allowed, panda_controls_off)
      ∷ (by_yaw_rate && not (signal_time_fresh v.esp12_time_s now_s timeout_s), esp_stale)
      ∷ (by_yaw_rate && not v.yaw_rate_valid, yaw_rate_invalid)
      ∷ (no_path && slow, stopped)
      ∷ (no_path, path_invalid)
      ∷ (not target.valid || not target.mpc_solution_valid, lateral_plan_invalid)
      ∷ (plan_stale, lateral_plan_stale)
      ∷ []

  pub active_block_reason :
      LateralController F D → LateralTarget F → VehicleCanState F D → D → Observed F → BlockReason
  unfolding gates
  active_block_reason c target v now_s o = first_block (gates c target v now_s o)

  -- Letting go: not engaged, and the control state back at its start.
  pub release : LateralController F D → D → LateralController F D
  unfolding reset_control_state
  release c now_s = record (reset_control_state (record c { engaged = false })) {
    last_disengage_s = now_s;
  }

  -- A fault of the vehicle ends an engagement at once.
  pub drop_on_fault : Bool → BlockKind → D → LateralController F D → LateralController F D
  unfolding release
  drop_on_fault logical_engaged kind now_s c =
      if logical_engaged && is_hard kind
      then record (release c now_s) { panda_engage_pending = false }
      else c

  -- A request may wait for the Panda; any other request does not wait.
  pub note_request : Bool → BlockKind → D → LateralController F D → LateralController F D
  note_request engage_requested kind now_s c =
      if engage_requested
      then record c {
        panda_engage_pending = is_transient kind;
        panda_engage_pending_s = if is_transient kind then now_s else c.panda_engage_pending_s;
      }
      else c

  -- The request is refused by the vehicle or the controller.
  pub refuses : Bool → BlockKind → Bool
  refuses engage_requested kind = engage_requested && (is_hard kind || is_reject kind)

  -- kPandaEngageGraceS is 1 s.
  pub grace_elapsed : LateralController F D → D → Bool
  grace_elapsed c now_s = d.le (d.lit (pos 1) 0) (d.sub now_s c.panda_engage_pending_s)

  -- A waiting request that can wait no longer, with no free way.
  pub times_out : LateralController F D → BlockKind → D → Bool
  unfolding grace_elapsed
  times_out c kind now_s =
      c.panda_engage_pending
      && (not (is_clear kind) && (not (is_transient kind) || grace_elapsed c now_s))

  pub settle_request : BlockKind → D → LateralController F D → LateralController F D
  unfolding times_out release
  settle_request kind now_s c =
      if c.panda_engage_pending
      then (if is_clear kind
          then record c { panda_engage_pending = false }
          else if times_out c kind now_s
          then record (release c now_s) { panda_engage_pending = false }
          else c)
      else c

  abbrev refused_release : Bool → D → LateralController F D → LateralController F D
  refused_release refused now_s c = if refused then release c now_s else c

  -- `update` from its start to the steering request that it holds.
  pub update_engagement :
      LateralController F D
      → LateralPath F
      → LateralTarget F
      → VehicleCanState F D
      → D
      → Observed F
      → Engagement F D
  unfolding update_button_state debounce_path active_block_reason drop_on_fault note_request refuses
      settle_request times_out
  update_engagement c path target v now_s o =
      let engage_requested =
        not c.force_engaged
        && (not c.engaged
            && (same_ℤ v.clu_button (pos 0) && same_ℤ c.last_button button_set_decel)) in
      let pressed = update_button_state c v.clu_button now_s in
      let logical_engaged = c.force_engaged || pressed.engaged in
      let gated = debounce_path pressed path.usable_for_steering now_s in
      let block = active_block_reason gated target v now_s o in
      let kind = block_kind block in
      let dropped = drop_on_fault logical_engaged kind now_s gated in
      let noted = note_request engage_requested kind now_s dropped in
      let refused = refuses engage_requested kind in
      let let_go = refused_release refused now_s noted in
      let timed_out = times_out let_go kind now_s in
      let active = is_unblocked kind in
      record {
        controller = record (settle_request kind now_s let_go) {
          steer_availability_hold =
              logical_engaged && (not active && (is_availability kind || is_plan_invalid block));
        };
        engaged =
            if (logical_engaged && is_hard kind) || (refused || timed_out)
            then c.force_engaged
            else logical_engaged;
        active = active;
        engage_rejected = refused || timed_out;
        active_block = block;
      }
