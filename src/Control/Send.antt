-- ===== src/Control/Send.antt =====
-- The frames that an update sends and their message counter: `build_frames` and
-- `next_lkas11_counter` of src/lateral_controller.cc.
pub mod Counter
mod Tests
use supercombo_k.Base.{Bool, true, false, not, ◌&&◌, ◌||◌, List, [], ◌∷◌, ◌++◌, ◌==◌, if◌then◌else◌}
use supercombo_k.Base.Int.{ℤ, pos, ◌+ℤ◌}
use supercombo_k.Base.Floats.{Floats}
use supercombo_k.Can.Frame.{CanFrame}
use supercombo_k.Hyundai.Lkas11.{HyundaiLkasCommand, decode_lkas11, low_nibble}
use supercombo_k.Hyundai.Clu11.{decode_clu11}
use supercombo_k.Hyundai.Mdps12.{create_mdps12_frame}
use supercombo_k.Hyundai.Frames.{HyundaiCanConfig, build_lateral_can_frames}
use supercombo_k.Control.Inputs.{VehicleCanState, LateralPath}
use supercombo_k.Control.Steer.{lkas_sys_state}
use supercombo_k.Control.Actuate.{LateralControlResult}

-- The members lkas11_counter_ and lkas11_counter_valid_.
pub record MessageCounter : Type 0 where
  pub lkas11_counter : ℤ
  pub lkas11_counter_valid : Bool

abbrev nibble : ℤ → ℤ
nibble n = pos (low_nibble n)

-- The first message goes on from the camera's own count.
unfoldable pub seed_counter : {F D : Type 0} → VehicleCanState F D → MessageCounter → MessageCounter
seed_counter v m = if m.lkas11_counter_valid then m else record {
  lkas11_counter = nibble ((decode_lkas11 v.lkas11_seed).msg_count +ℤ pos 1);
  lkas11_counter_valid = true;
}

unfoldable pub next_lkas11_counter :
    {F D : Type 0} → VehicleCanState F D → MessageCounter → MessageCounter × ℤ
next_lkas11_counter v m =
    let seeded = seed_counter v m in
    (
      record seeded { lkas11_counter = nibble (seeded.lkas11_counter +ℤ pos 1) },
      nibble seeded.lkas11_counter,
    )

module _ {F D : Type 0} (f : Floats F) where
  unfoldable pub lkas_command : LateralPath F → LateralControlResult F D → ℤ → HyundaiLkasCommand
  lkas_command path result counter = record {
    apply_steer = result.apply_torque;
    steer_req = result.engagement.active || result.engagement.controller.steer_availability_hold;
    cut_steer_temp = result.cut_steer_temp;
    sys_warning = false;
    sys_state = lkas_sys_state result.engagement.engaged true true;
    left_lane = path.left_valid;
    right_lane = path.right_valid;
    left_lane_depart = pos 0;
    right_lane_depart = pos 0;
    lkas_msg_count = counter;
    ldws_fix = false;
  }

  unfoldable pub build_frames :
      HyundaiCanConfig F
      → VehicleCanState F D
      → LateralPath F
      → LateralControlResult F D
      → ℤ
      → MessageCounter
      → MessageCounter × List CanFrame
  build_frames config v path result frame m =
      let (m', counter) = next_lkas11_counter v m in
      let clu_seed = decode_clu11 f v.clu11_seed in
      (
        m',
        build_lateral_can_frames f (decode_lkas11 v.lkas11_seed) clu_seed
              (lkas_command path result counter) config
              (result.engagement.active || result.engagement.controller.steer_availability_hold)
              clu_seed.speed v.speed_unit_mph frame
            ++ (if v.has_mdps12_seed && not (config.mdps_bus == config.main_bus)
                then create_mdps12_frame v.mdps12_seed frame ∷ []
                else []),
      )

  -- The end of `update`: the frames, or a counter that starts anew.
  unfoldable pub send :
      HyundaiCanConfig F
      → VehicleCanState F D
      → LateralPath F
      → LateralControlResult F D
      → ℤ
      → MessageCounter
      → MessageCounter × List CanFrame
  send config v path result frame m =
      if result.should_send
      then build_frames config v path result frame m
      else (record m { lkas11_counter_valid = false }, [])
