-- ===== src/Control/Send/Counter.antt =====
-- The message counter of LKAS11 through updates that send.
use mathlib.Core.Path.{subst}
use supercombo_k.Base.{
  ℕ, ◌+◌, ◌%◌, ◌≡◌, refl, sym, ap, ap₂, ◌∙◌, Bool, true, false, List, [], ◌∷◌, All, arith,
  if◌then◌else◌,
}
use supercombo_k.Base.Int.{ℤ, pos, ◌+ℤ◌, min_ℤ, max_ℤ}
use supercombo_k.Base.Floats.{Floats}
use supercombo_k.Can.Frame.{CanFrame}
use supercombo_k.Hyundai.Lkas11.{HyundaiLkas11Values, decode_lkas11, low_nibble, apply_lkas_command}
use supercombo_k.Hyundai.Lkas11.RoundTrip.{saturate_lkas11}
use supercombo_k.Hyundai.Lkas11.Frame.{decode_lkas11-create_lkas11_frame}
use supercombo_k.Hyundai.Frames.{HyundaiCanConfig, build_lateral_can_frames}
use supercombo_k.Control.Inputs.{VehicleCanState, LateralPath}
use supercombo_k.Control.Actuate.{LateralControlResult}
use supercombo_k.Control.Send.{
  MessageCounter, seed_counter, next_lkas11_counter, lkas_command, build_frames, send,
}

-- What one update hands to the sending.
pub record Sending (F D : Type 0) : Type 0 where
  pub vehicle : VehicleCanState F D
  pub path : LateralPath F
  pub result : LateralControlResult F D
  pub frame : ℤ

-- The count that a receiver decodes from the first frame.
abbrev pub first_count : List CanFrame → ℤ
first_count [] = pos 0
first_count (frame ∷ _) = (decode_lkas11 frame.bytes).msg_count

-- What an update that sends leaves is a counter under way, one further.
abbrev IsNext : MessageCounter → ℕ → Type 0
IsNext m n = (m.lkas11_counter ≡ pos (n % 16)) × (m.lkas11_counter_valid ≡ true)

next_count : (n : ℕ) → pos (low_nibble (pos n +ℤ pos 1)) ≡ pos ((n + 1) % 16)
unfolding low_nibble ◌+ℤ◌
next_count n = ground arith

wrap : (n : ℕ) → n % 16 % 16 ≡ n % 16
wrap n = omega arith

wrap_next : (n : ℕ) → (n % 16 + 1) % 16 ≡ (n + 1) % 16
wrap_next n = omega arith

module _ {F D : Type 0} (f : Floats F) where
  abbrev send_one :
      HyundaiCanConfig F → Sending F D → MessageCounter → MessageCounter × List CanFrame
  send_one config t m = send f config t.vehicle t.path t.result t.frame m

  -- The counts of the first frames, update after update.
  unfoldable pub counts : HyundaiCanConfig F → List (Sending F D) → MessageCounter → List ℤ
  counts config [] m = []
  counts config (t ∷ ts) m =
      first_count (send_one config t m).1 ∷ counts config ts (send_one config t m).0

  -- Consecutive numbers modulo 16, one for each update.
  unfoldable pub consecutive : ℕ → List (Sending F D) → List ℤ
  consecutive n [] = []
  consecutive n (t ∷ ts) = pos (n % 16) ∷ consecutive (n + 1) ts

  saturated_count :
      (seed : HyundaiLkas11Values) (path : LateralPath F) (result : LateralControlResult F D)
      (n : ℕ)
      → (saturate_lkas11 (
          apply_lkas_command seed
            (lkas_command f path result (pos (low_nibble (pos n)))))).msg_count
        ≡ pos (n % 16)
  unfolding apply_lkas_command lkas_command low_nibble min_ℤ max_ℤ
  saturated_count seed path result n = ground arith

  build_first :
      (config : HyundaiCanConfig F) (t : Sending F D) (m : MessageCounter) (n : ℕ)
      → (seed_counter t.vehicle m).lkas11_counter ≡ pos n
      → first_count (build_frames f config t.vehicle t.path t.result t.frame m).1 ≡ pos (n % 16)
  unfolding build_frames build_lateral_can_frames next_lkas11_counter
  build_first config t m n e =
      let seed = decode_lkas11 t.vehicle.lkas11_seed in
      let command = λ (k : ℤ). lkas_command f t.path t.result (pos (low_nibble k)) in
      ap (λ v. v.msg_count)
        (decode_lkas11-create_lkas11_frame seed (command (seed_counter t.vehicle m).lkas11_counter)
          config.main_bus).0
      ∙ ap (λ k. (saturate_lkas11 (apply_lkas_command seed (command k))).msg_count) e
      ∙ saturated_count seed t.path t.result n

  seed_counter_valid :
      (v : VehicleCanState F D) (m : MessageCounter)
      → (seed_counter v m).lkas11_counter_valid ≡ true
  unfolding seed_counter
  seed_counter_valid v m = ground arith

  seed_counter_kept :
      (v : VehicleCanState F D) (m : MessageCounter)
      → m.lkas11_counter_valid ≡ true
      → (seed_counter v m).lkas11_counter ≡ m.lkas11_counter
  unfolding seed_counter
  seed_counter_kept v m e = ground arith

  build-IsNext :
      (config : HyundaiCanConfig F) (t : Sending F D) (m : MessageCounter) (n : ℕ)
      → (seed_counter t.vehicle m).lkas11_counter ≡ pos n
      → IsNext (build_frames f config t.vehicle t.path t.result t.frame m).0 (n + 1)
  unfolding build_frames next_lkas11_counter
  build-IsNext config t m n e =
      (ap (λ k. pos (low_nibble (k +ℤ pos 1))) e ∙ next_count n, seed_counter_valid t.vehicle m)

  -- Both, for an update that sends.
  send_step :
      (config : HyundaiCanConfig F) (t : Sending F D) (m : MessageCounter) (n : ℕ)
      → t.result.should_send ≡ true
      → (seed_counter t.vehicle m).lkas11_counter ≡ pos n
      → (first_count (send_one config t m).1 ≡ pos (n % 16))
        × IsNext (send_one config t m).0 (n + 1)
  unfolding send
  send_step config t m n sends e =
      let built = build_frames f config t.vehicle t.path t.result t.frame m in
      subst
        (λ (b : Bool).
          let r = if b then built else (record m { lkas11_counter_valid = false }, []) in
          (first_count r.1 ≡ pos (n % 16)) × IsNext r.0 (n + 1))
        (sym sends) (build_first config t m n e, build-IsNext config t m n e)

  counts_under_way :
      (config : HyundaiCanConfig F) (ts : List (Sending F D)) (m : MessageCounter) (n : ℕ)
      → All (λ t. t.result.should_send ≡ true) ts
      → IsNext m n
      → counts config ts m ≡ consecutive n ts
  unfolding counts consecutive
  counts_under_way config [] m n sends h = refl
  counts_under_way config (t ∷ ts) m n sends h =
      let at = seed_counter_kept t.vehicle m h.1 ∙ h.0 in
      let s = send_step config t m (n % 16) sends.0 at in
      ap₂ ◌∷◌ (s.0 ∙ ap pos (wrap n)) (
        counts_under_way config ts (send_one config t m).0 (n + 1) sends.1
          (s.1.0 ∙ ap pos (wrap_next n), s.1.1))

  -- If the counter that a first update finds or takes from the camera's last message is n, and each
  -- update sends, then the LKAS11 frames that head what the updates send carry n, n + 1, … modulo 16.
  pub counts-consecutive :
      (config : HyundaiCanConfig F) (t : Sending F D) (ts : List (Sending F D)) (m : MessageCounter)
      (n : ℕ)
      → (seed_counter t.vehicle m).lkas11_counter ≡ pos n
      → All (λ x. x.result.should_send ≡ true) (t ∷ ts)
      → counts config (t ∷ ts) m ≡ consecutive n (t ∷ ts)
  unfolding counts consecutive
  counts-consecutive config t ts m n at sends =
      let s = send_step config t m n sends.0 at in
      ap₂ ◌∷◌ s.0 (counts_under_way config ts (send_one config t m).0 (n + 1) sends.1 s.1)
