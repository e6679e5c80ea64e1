-- ===== src/Hyundai/Frames.antt =====
-- The frames of one control step: `build_lateral_can_frames` and `mdps_speed_for_lkas`.
use supercombo_k.Base.{ℕ, suc, ◌%◌, Bool, not, ◌&&◌, ◌||◌, List, [], ◌∷◌, ◌++◌, ◌==◌, if◌then◌else◌}
use supercombo_k.Base.Int.{ℤ, pos, negsuc}
use supercombo_k.Base.Floats.{Floats}
use supercombo_k.Can.Frame.{CanFrame}
use supercombo_k.Hyundai.Lkas11.{HyundaiLkas11Values, HyundaiLkasCommand, create_lkas11_frame}
use supercombo_k.Hyundai.Clu11.{HyundaiClu11Values, create_clu11_frame}

pub record HyundaiCanConfig (F : Type 0) : Type 0 where
  pub main_bus : ℕ
  pub scc_bus : ℕ
  pub mdps_bus : ℕ
  pub send_lkas_on_scc_bus : Bool
  pub send_lkas_on_mdps_bus : Bool
  pub send_clu11_speed_to_mdps : Bool
  pub mdps_speed_spoof_kph : F

-- (frame % 2) != 0.
abbrev is_odd : ℤ → Bool
is_odd (pos n) = not (n % 2 == 0)
is_odd (negsuc n) = not (suc n % 2 == 0)

-- A further bus is one that is not 0 and not the main one.
abbrev is_further : ℕ → ℕ → Bool
is_further bus main_bus = not (bus == 0) && not (bus == main_bus)

module _ {F : Type 0} (f : Floats F) where
  unfoldable pub mdps_speed_for_lkas : F → Bool → Bool → F → F
  mdps_speed_for_lkas cluster_speed_raw lkas_active is_mph spoof_speed_kph =
      let safe_spoof_kph =
        if f.is_finite spoof_speed_kph
        then (if f.lt spoof_speed_kph (f.lit (pos 300) 1)
            then f.lit (pos 300) 1
            else (if f.lt (f.lit (pos 1000) 1) spoof_speed_kph
                then f.lit (pos 1000) 1
                else spoof_speed_kph))
        else f.lit (pos 600) 1 in
      let threshold =
        if is_mph then f.div safe_spoof_kph (f.lit (pos 1609344) 6) else safe_spoof_kph in
      if not (f.is_finite cluster_speed_raw) || f.lt cluster_speed_raw (f.lit (pos 0) 1)
      then f.lit (pos 0) 1
      else if not lkas_active || f.lt threshold cluster_speed_raw
      then cluster_speed_raw
      else threshold

  -- The speed that the steering unit is told, every second frame.
  unfoldable pub clu11_frames :
      HyundaiClu11Values F → HyundaiCanConfig F → Bool → F → Bool → ℤ → List CanFrame
  clu11_frames clu_seed config lkas_active cluster_speed_raw is_mph frame =
      if config.send_clu11_speed_to_mdps && is_odd frame
      then create_clu11_frame f clu_seed
          (record {
            button = pos 0;
            speed =
                mdps_speed_for_lkas cluster_speed_raw lkas_active is_mph
                  config.mdps_speed_spoof_kph;
            frame = frame;
          })
          config.mdps_bus
        ∷ []
      else []

  unfoldable pub build_lateral_can_frames :
      HyundaiLkas11Values
      → HyundaiClu11Values F
      → HyundaiLkasCommand
      → HyundaiCanConfig F
      → Bool
      → F
      → Bool
      → ℤ
      → List CanFrame
  build_lateral_can_frames lkas_seed clu_seed lkas_command config lkas_active cluster_speed_raw
        is_mph frame =
      create_lkas11_frame lkas_seed lkas_command config.main_bus
      ∷ ((if config.send_lkas_on_scc_bus && is_further config.scc_bus config.main_bus
            then create_lkas11_frame lkas_seed lkas_command config.scc_bus ∷ []
            else [])
          ++ (if config.send_lkas_on_mdps_bus && is_further config.mdps_bus config.main_bus
              then create_lkas11_frame lkas_seed lkas_command config.mdps_bus
                ∷ clu11_frames clu_seed config lkas_active cluster_speed_raw is_mph frame
              else []))
