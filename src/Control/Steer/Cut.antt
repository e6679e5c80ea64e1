-- ===== src/Control/Steer/Cut.antt =====
-- The steering request comes back after a cut.
use mathlib.Core.Path.{subst}
use mathlib.Core.Bool.{true≢false}
use supercombo_k.Base.{
  ℕ, ◌+◌, ◌≤◌, ◌<◌, ◌≡◌, refl, sym, ◌∙◌, Bool, true, false, ◌&&◌, List, [], ◌∷◌, All, length, inl,
  inr, ◌⊎◌, arith,
}
use supercombo_k.Base.Int.{pos, ltb_ℤ, max_ℤ, ◌≤ℤ◌}
use supercombo_k.Base.Floats.{Floats}
use supercombo_k.Control.Inputs.{SteeringParams, VehicleCanState}
use supercombo_k.Control.Engage.{LateralController}
use supercombo_k.Control.Steer.{
  cut_frames, count_angle, starts_cut, switch_cut, update_cut_steer_state,
}

module _ {F D : Type 0} (f : Floats F) where
  -- In this update nothing calls for a cut: either the angle is what is watched, and it is below its
  -- limit or the steering is off, or the errors of the steering unit are, and they are few.
  abbrev pub IsCalm : SteeringParams F → Bool → VehicleCanState F D → Type 0
  IsCalm p active v =
      ((p.avoid_lkas_fault_enabled ≡ true)
        × (pos 0 ≤ℤ p.avoid_lkas_fault_max_frames)
        × ((active && f.le p.avoid_lkas_fault_max_angle_deg (f.abs v.steering_angle_deg)) ≡ false))
      ⊎ ((p.avoid_lkas_fault_enabled ≡ false)
          × (v.mdps_error_count ≤ℤ p.avoid_lkas_fault_max_frames))

  -- The controller after a sequence of updates, and whether the last of them cut the request.
  unfoldable pub run_cut :
      List (Bool × VehicleCanState F D)
      → LateralController F D × Bool
      → LateralController F D × Bool
  run_cut [] s = s
  run_cut ((active, v) ∷ rest) (c, cut) = run_cut rest (update_cut_steer_state f active v c)

  calm_quiet :
      (active : Bool) (v : VehicleCanState F D) (c : LateralController F D)
      → IsCalm c.steering_params active v
      → starts_cut f v (count_angle f active v c) ≡ false
  unfolding starts_cut count_angle
  calm_quiet active v c (inl (on, room, low)) = rw (on, low) (ground arith)
  calm_quiet active v c (inr (off, few)) = rw off (ground arith)

  -- An update in which nothing calls for a cut: none is under way after it, or one was and has lasted
  -- one frame longer.
  calm_step :
      (active : Bool) (v : VehicleCanState F D) (c : LateralController F D)
      → IsCalm c.steering_params active v
      → let (c', cut) = update_cut_steer_state f active v c in
        (c'.steering_params ≡ c.steering_params)
        × (((cut ≡ false) × (c'.cut_steer ≡ false))
            ⊎ ((c.cut_steer ≡ true)
                × (c'.cut_steer_frames ≡ c.cut_steer_frames + 1)
                × (ltb_ℤ (pos c.cut_steer_frames) (cut_frames f c) ≡ true)))
  unfolding update_cut_steer_state switch_cut count_angle cut_frames
  calm_step active v c calm = ground (arith, calm_quiet active v c calm)

  -- How many more updates a cut can last.
  below_frames :
      (c : LateralController F D) (n : ℕ)
      → ltb_ℤ (pos c.cut_steer_frames) (cut_frames f c) ≡ true
      → 1 ≤ n
      → c.steering_params.avoid_lkas_fault_cut_frames ≤ℤ pos n
      → c.cut_steer_frames < n
  unfolding cut_frames max_ℤ
  below_frames c n lt one most = ground arith

  abbrev IsOver : LateralController F D × Bool → Type 0
  IsOver (c, cut) = (cut ≡ false) × (c.cut_steer ≡ false)

  module _ (p : SteeringParams F) where
    abbrev AllCalm : List (Bool × VehicleCanState F D) → Type 0
    AllCalm inputs = All (λ (i : Bool × VehicleCanState F D). IsCalm p i.0 i.1) inputs

    -- Without a cause no cut begins.
    run_cut-IsOver :
        (inputs : List (Bool × VehicleCanState F D)) (c : LateralController F D) (cut : Bool)
        → c.steering_params ≡ p
        → AllCalm inputs
        → IsOver (c, cut)
        → IsOver (run_cut inputs (c, cut))
    unfolding run_cut
    run_cut-IsOver [] c cut same calm over = over
    run_cut-IsOver ((active, v) ∷ rest) c cut same (calm, later) (no_cut, off) =
        let (c', cut') = update_cut_steer_state f active v c in
        let (kept, next) = calm_step active v c (subst (λ q. IsCalm q active v) (sym same) calm) in
        elim next [
          | inl over ↦ run_cut-IsOver rest c' cut' (kept ∙ same) later over
          | inr (on, longer, lt) ↦ absurd (true≢false (sym on ∙ off))
        ]

    step_of :
        (active : Bool) (v : VehicleCanState F D) (c : LateralController F D)
        → c.steering_params ≡ p
        → IsCalm p active v
        → (n : ℕ) → 1 ≤ n
        → p.avoid_lkas_fault_cut_frames ≤ℤ pos n
        → let (c', cut) = update_cut_steer_state f active v c in
          (c'.steering_params ≡ c.steering_params)
          × (IsOver (c', cut)
              ⊎ ((c'.cut_steer_frames ≡ c.cut_steer_frames + 1) × (c.cut_steer_frames < n)))
    step_of active v c same calm n one most =
        let (kept, next) = calm_step active v c (subst (λ q. IsCalm q active v) (sym same) calm) in
        elim next [
          | inl over ↦ (kept, inl over)
          | inr (on, longer, lt) ↦ (
            kept,
            inr (
              longer,
              below_frames c n lt one (
                  subst (λ (q : SteeringParams F). q.avoid_lkas_fault_cut_frames ≤ℤ pos n)
                    (sym same) most),
            ),
          )
        ]

    -- A cut that has lasted some frames needs only the others.
    run_cut-from :
        (rest : List (Bool × VehicleCanState F D))
        → (i : Bool × VehicleCanState F D) (c : LateralController F D) (cut : Bool) (n : ℕ)
        → c.steering_params ≡ p
        → AllCalm (i ∷ rest)
        → 1 ≤ n
        → p.avoid_lkas_fault_cut_frames ≤ℤ pos n
        → n ≤ c.cut_steer_frames + length rest
        → IsOver (run_cut (i ∷ rest) (c, cut))
    unfolding run_cut
    run_cut-from [] (active, v) c cut n same (calm, later) one most enough =
        let (kept, next) = step_of active v c same calm n one most in
        elim next [ inl over ↦ over | inr (longer, lt) ↦ absurd (omega arith) ]
    run_cut-from (j ∷ rest) (active, v) c cut n same (calm, later) one most enough =
        let (c', cut') = update_cut_steer_state f active v c in
        let (kept, next) = step_of active v c same calm n one most in
        elim next [
          | inl over ↦ run_cut-IsOver (j ∷ rest) c' cut' (kept ∙ same) later over
          | inr (longer, lt) ↦
              run_cut-from rest j c' cut' n (kept ∙ same) later one most (omega arith)
        ]

  -- Whatever cut is under way, and whatever came before: if in each of more updates than a cut has
  -- frames, at least one, nothing calls for a cut, then after them the request is not cut.
  pub run_cut-ends :
      (inputs : List (Bool × VehicleCanState F D)) (c : LateralController F D) (cut : Bool) (n : ℕ)
      → All (λ (i : Bool × VehicleCanState F D). IsCalm c.steering_params i.0 i.1) inputs
      → 1 ≤ n
      → c.steering_params.avoid_lkas_fault_cut_frames ≤ℤ pos n
      → n < length inputs
      → ((run_cut inputs (c, cut)).1 ≡ false) × ((run_cut inputs (c, cut)).0.cut_steer ≡ false)
  run_cut-ends [] c cut n calm one most enough = absurd (omega arith)
  run_cut-ends (i ∷ rest) c cut n calm one most enough =
      run_cut-from c.steering_params rest i c cut n refl calm one most (omega arith)
