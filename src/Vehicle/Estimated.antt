-- ===== src/Vehicle/Estimated.antt =====
-- The estimate of the cruise changes its own fields alone.
use mathlib.Core.Bool.{false≢true}
use supercombo_k.Base.{
  ◌≡◌, refl, sym, ap, ap₂, ◌∙◌, Bool, true, false, not, ◌&&◌, arith, Bool-cases, inl, inr,
  if◌then◌else◌,
}
use supercombo_k.Base.Int.{ℤ}
use supercombo_k.Base.Floats.{Floats}
use supercombo_k.Control.Inputs.{VehicleCanState}
use supercombo_k.Control.Engage.{same_ℤ}
use supercombo_k.Hyundai.Clu11.{HyundaiClu11Values}
use supercombo_k.Vehicle.Estimate.{
  cruise_button_resume, cruise_button_set, cruise_button_cancel, update_fixed_cruise_estimate,
  press_button, press_set, press_resume, take_estimate, is_zero,
}

-- The state with the fields of the estimate taken from another one.
abbrev pub with_estimate :
    {F D : Type 0} → VehicleCanState F D → VehicleCanState F D → VehicleCanState F D
with_estimate s s' = record s {
  clu_button = s'.clu_button;
  clu_main_button = s'.clu_main_button;
  cruise_active = s'.cruise_active;
  estimated_cruise_set_speed_kph = s'.estimated_cruise_set_speed_kph;
  estimated_cruise_set_speed_valid = s'.estimated_cruise_set_speed_valid;
  estimated_cruise_active = s'.estimated_cruise_active;
}

-- A step of the estimate: it changes only those fields, an active estimate has a set speed, and none
-- begins while the brake is pressed.
pub record IsEstimated {F D : Type 0} (s s' : VehicleCanState F D) : Type 0 where
  pub same_rest : s' ≡ with_estimate s s'
  pub valid_kept :
      (s.estimated_cruise_active ≡ true → s.estimated_cruise_set_speed_valid ≡ true)
      → s'.estimated_cruise_active ≡ true
      → s'.estimated_cruise_set_speed_valid ≡ true
  pub off_kept :
      s.brake_pressed ≡ true
      → s.estimated_cruise_active ≡ false
      → s'.estimated_cruise_active ≡ false

no_brake : (a b : Bool) → (a && not b) ≡ true → b ≡ false
no_brake a b e = ground arith

refl-IsEstimated : {F D : Type 0} (s : VehicleCanState F D) → IsEstimated s s
refl-IsEstimated s = record { same_rest = refl; valid_kept = λ v. v; off_kept = λ p o. o }

trans-IsEstimated :
    {F D : Type 0} (s s' s'' : VehicleCanState F D)
    → IsEstimated s s'
    → IsEstimated s' s''
    → IsEstimated s s''
trans-IsEstimated s s' s'' h h' =
    let brake : s'.brake_pressed ≡ s.brake_pressed = ap (λ x. x.brake_pressed) h.same_rest in
    record {
      same_rest = h'.same_rest ∙ ap (λ x. with_estimate x s'') h.same_rest;
      valid_kept = λ v. h'.valid_kept (h.valid_kept v);
      off_kept = λ p o. h'.off_kept (brake ∙ p) (h.off_kept p o);
    }

module _ {F D : Type 0} (f : Floats F) where
  press_set-IsEstimated :
      (clu : HyundaiClu11Values F) (s : VehicleCanState F D)
      → s.brake_pressed ≡ false
      → IsEstimated s (press_set f clu s)
  unfolding press_set
  press_set-IsEstimated clu s b = record {
    same_rest = refl;
    valid_kept = λ v a. refl;
    off_kept = λ p o. absurd (false≢true (sym b ∙ p));
  }

  press_resume-IsEstimated :
      (clu : HyundaiClu11Values F) (s : VehicleCanState F D)
      → s.brake_pressed ≡ false
      → IsEstimated s (press_resume f clu s)
  unfolding press_resume
  press_resume-IsEstimated clu s b = record {
    same_rest = refl;
    valid_kept = λ v a. refl;
    off_kept = λ p o. absurd (false≢true (sym b ∙ p));
  }

  press_button-IsEstimated :
      (clu : HyundaiClu11Values F) (s : VehicleCanState F D) → IsEstimated s (press_button f clu s)
  unfolding press_button
  press_button-IsEstimated clu s =
      elim (Bool-cases (same_ℤ clu.cruise_sw_state cruise_button_cancel)) [
        | inl c ↦ rw c (record {
          same_rest = refl;
          valid_kept = λ v a. absurd (false≢true a);
          off_kept = λ p o. refl;
        })
        | inr c ↦
            elim (Bool-cases
              (same_ℤ clu.cruise_sw_state cruise_button_set && not s.brake_pressed)) [
                | inl e ↦ rw (c, e) (press_set-IsEstimated clu s (no_brake _ _ e))
                | inr e ↦
                    elim (Bool-cases
                      (same_ℤ clu.cruise_sw_state cruise_button_resume && not s.brake_pressed)) [
                        | inl r ↦ rw (c, e, r) (press_resume-IsEstimated clu s (no_brake _ _ r))
                        | inr r ↦ rw (c, e, r) (refl-IsEstimated s)
                      ]
              ]
      ]

  -- A main button that is newly pressed switches the estimate off.
  switch-IsEstimated :
      (main_pressed : Bool) (s : VehicleCanState F D)
      → IsEstimated s (if main_pressed then record s { estimated_cruise_active = false } else s)
  switch-IsEstimated true s = record {
    same_rest = refl;
    valid_kept = λ v a. absurd (false≢true a);
    off_kept = λ p o. refl;
  }
  switch-IsEstimated false s = refl-IsEstimated s

  press-IsEstimated :
      (button_pressed : Bool) (clu : HyundaiClu11Values F) (s : VehicleCanState F D)
      → IsEstimated s (if button_pressed then press_button f clu s else s)
  press-IsEstimated true clu s = press_button-IsEstimated clu s
  press-IsEstimated false clu s = refl-IsEstimated s

  note_buttons-IsEstimated :
      (button main : ℤ) (s : VehicleCanState F D)
      → IsEstimated s (record s { clu_button = button; clu_main_button = main })
  note_buttons-IsEstimated button main s = record {
    same_rest = refl;
    valid_kept = λ v. v;
    off_kept = λ p o. o;
  }

  take-IsEstimated :
      (reported : Bool) (s : VehicleCanState F D)
      → IsEstimated s
          (if reported then s else record s { cruise_active = s.estimated_cruise_active })
  take-IsEstimated true s = refl-IsEstimated s
  take-IsEstimated false s = record { same_rest = refl; valid_kept = λ v. v; off_kept = λ p o. o }

  take_estimate-IsEstimated : (s : VehicleCanState F D) → IsEstimated s (take_estimate s)
  unfolding take_estimate
  take_estimate-IsEstimated s = take-IsEstimated s.has_scc_cruise_state s

  pub update-IsEstimated :
      (clu : HyundaiClu11Values F) (s : VehicleCanState F D)
      → IsEstimated s (update_fixed_cruise_estimate f clu s)
  unfolding update_fixed_cruise_estimate
  update-IsEstimated clu s =
      let main_pressed = not (is_zero clu.cruise_sw_main) && is_zero s.clu_main_button in
      let button_pressed = not (is_zero clu.cruise_sw_state) && is_zero s.clu_button in
      let switched = if main_pressed then record s { estimated_cruise_active = false } else s in
      let pressed = if button_pressed then press_button f clu switched else switched in
      let noted = record pressed {
        clu_button = clu.cruise_sw_state;
        clu_main_button = clu.cruise_sw_main;
      } in
      trans-IsEstimated s switched (take_estimate noted) (switch-IsEstimated main_pressed s) (
        trans-IsEstimated switched pressed (take_estimate noted)
          (press-IsEstimated button_pressed clu switched)
          (trans-IsEstimated pressed noted (take_estimate noted)
            (note_buttons-IsEstimated clu.cruise_sw_state clu.cruise_sw_main pressed)
            (take_estimate-IsEstimated noted)))

  press_button-cruise :
      (clu : HyundaiClu11Values F) (s : VehicleCanState F D)
      → (press_button f clu s).cruise_active ≡ s.cruise_active
  unfolding press_button press_set press_resume
  press_button-cruise clu s = ground arith

  pressed-cruise :
      (button_pressed : Bool) (clu : HyundaiClu11Values F) (s : VehicleCanState F D)
      → (if button_pressed then press_button f clu s else s).cruise_active ≡ s.cruise_active
  pressed-cruise true clu s = press_button-cruise clu s
  pressed-cruise false clu s = refl

  switched-cruise :
      (main_pressed : Bool) (s : VehicleCanState F D)
      → (if main_pressed then record s { estimated_cruise_active = false } else s).cruise_active
        ≡ s.cruise_active
  switched-cruise true s = refl
  switched-cruise false s = refl

  -- Without a report of the car, the estimate is what counts.
  abbrev IsCounted : VehicleCanState F D → VehicleCanState F D → Type 0
  IsCounted s s' =
      s'.cruise_active
      ≡ (if s.has_scc_cruise_state then s.cruise_active else s'.estimated_cruise_active)

  take-IsCounted :
      (reported : Bool) (s : VehicleCanState F D)
      → let s' = if reported then s else record s { cruise_active = s.estimated_cruise_active } in
        s'.cruise_active ≡ (if reported then s.cruise_active else s'.estimated_cruise_active)
  take-IsCounted true s = refl
  take-IsCounted false s = refl

  take_estimate-IsCounted :
      (s noted : VehicleCanState F D)
      → noted.has_scc_cruise_state ≡ s.has_scc_cruise_state
      → noted.cruise_active ≡ s.cruise_active
      → IsCounted s (take_estimate noted)
  unfolding take_estimate
  take_estimate-IsCounted s noted reported same =
      take-IsCounted noted.has_scc_cruise_state noted
      ∙ ap₂ (λ b c. if b then c else (take_estimate noted).estimated_cruise_active) reported same

  pub update-IsCounted :
      (clu : HyundaiClu11Values F) (s : VehicleCanState F D)
      → IsCounted s (update_fixed_cruise_estimate f clu s)
  unfolding update_fixed_cruise_estimate
  update-IsCounted clu s =
      let main_pressed = not (is_zero clu.cruise_sw_main) && is_zero s.clu_main_button in
      let button_pressed = not (is_zero clu.cruise_sw_state) && is_zero s.clu_button in
      let switched = if main_pressed then record s { estimated_cruise_active = false } else s in
      let pressed = if button_pressed then press_button f clu switched else switched in
      let noted = record pressed {
        clu_button = clu.cruise_sw_state;
        clu_main_button = clu.cruise_sw_main;
      } in
      let same : pressed.cruise_active ≡ s.cruise_active =
        pressed-cruise button_pressed clu switched ∙ switched-cruise main_pressed s in
      let reported : pressed.has_scc_cruise_state ≡ s.has_scc_cruise_state =
        ap (λ x. x.has_scc_cruise_state) (press-IsEstimated button_pressed clu switched).same_rest
        ∙ ap (λ x. x.has_scc_cruise_state) (switch-IsEstimated main_pressed s).same_rest in
      take_estimate-IsCounted s noted reported same
