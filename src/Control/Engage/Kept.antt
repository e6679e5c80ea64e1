-- ===== src/Control/Engage/Kept.antt =====
-- The part of the update that decides the engagement keeps the torque, or clears it.
use supercombo_k.Base.{◌≡◌, ◌∙◌, ◌⊎◌, inl, inr, Bool, not, ◌&&◌, ◌||◌, arith}
use supercombo_k.Base.Int.{ℤ, pos}
use supercombo_k.Base.Floats.{Floats}
use supercombo_k.Control.Block.{BlockKind, block_kind}
use supercombo_k.Control.Inputs.{LateralPath, LateralTarget, VehicleCanState}
use supercombo_k.Control.Engage.{
  LateralController, Observed, same_ℤ, button_set_decel, reset_control_state, update_button_state,
  debounce_path, active_block_reason, release, drop_on_fault, note_request, refuses, settle_request,
  update_engagement, refused_release,
}

module _ {F D : Type 0} (f : Floats F) (d : Floats D) where
  -- The parameters stay, and so does the torque unless it is cleared.
  pub record IsTorqueKept (c c' : LateralController F D) : Type 0 where
    pub same_params : c'.steering_params ≡ c.steering_params
    pub torque : (c'.last_torque ≡ c.last_torque) ⊎ (c'.last_torque ≡ pos 0)

  trans-IsTorqueKept :
      (c c' c'' : LateralController F D)
      → IsTorqueKept c c'
      → IsTorqueKept c' c''
      → IsTorqueKept c c''
  trans-IsTorqueKept c c' c'' h h' = record {
    same_params = h'.same_params ∙ h.same_params;
    torque = elim h'.torque [
      | inr e ↦ inr e
      | inl e ↦ elim h.torque [ inl e' ↦ inl (e ∙ e') | inr e' ↦ inr (e ∙ e') ]
    ];
  }

  button-IsTorqueKept :
      (c : LateralController F D) (button : ℤ) (now_s : D)
      → IsTorqueKept c (update_button_state f d c button now_s)
  unfolding update_button_state reset_control_state
  button-IsTorqueKept c button now_s = ground arith

  debounce-IsTorqueKept :
      (c : LateralController F D) (usable : Bool) (now_s : D)
      → IsTorqueKept c (debounce_path f d c usable now_s)
  unfolding debounce_path
  debounce-IsTorqueKept c usable now_s = ground arith

  drop-IsTorqueKept :
      (engaged : Bool) (kind : BlockKind) (now_s : D) (c : LateralController F D)
      → IsTorqueKept c (drop_on_fault f d engaged kind now_s c)
  unfolding drop_on_fault release reset_control_state
  drop-IsTorqueKept engaged kind now_s c = ground arith

  note-IsTorqueKept :
      (requested : Bool) (kind : BlockKind) (now_s : D) (c : LateralController F D)
      → IsTorqueKept c (note_request f d requested kind now_s c)
  unfolding note_request
  note-IsTorqueKept requested kind now_s c = ground arith

  refused-IsTorqueKept :
      (refused : Bool) (now_s : D) (c : LateralController F D)
      → IsTorqueKept c (refused_release f d refused now_s c)
  unfolding release reset_control_state
  refused-IsTorqueKept refused now_s c = ground arith

  settle-IsTorqueKept :
      (kind : BlockKind) (now_s : D) (c : LateralController F D)
      → IsTorqueKept c (settle_request f d kind now_s c)
  unfolding settle_request release reset_control_state
  settle-IsTorqueKept kind now_s c = ground arith

  pub update_engagement-IsTorqueKept :
      (c : LateralController F D) (path : LateralPath F) (target : LateralTarget F)
      (v : VehicleCanState F D) (now_s : D) (o : Observed F)
      → IsTorqueKept c (update_engagement f d c path target v now_s o).controller
  unfolding update_engagement
  update_engagement-IsTorqueKept c path target v now_s o =
      let engage_requested =
        not c.force_engaged
        && (not c.engaged
            && (same_ℤ v.clu_button (pos 0) && same_ℤ c.last_button button_set_decel)) in
      let pressed = update_button_state f d c v.clu_button now_s in
      let logical_engaged = c.force_engaged || pressed.engaged in
      let gated = debounce_path f d pressed path.usable_for_steering now_s in
      let kind = block_kind (active_block_reason f d gated target v now_s o) in
      let dropped = drop_on_fault f d logical_engaged kind now_s gated in
      let noted = note_request f d engage_requested kind now_s dropped in
      let let_go = refused_release f d (refuses f d engage_requested kind) now_s noted in
      let settled = settle_request f d kind now_s let_go in
      let h = trans-IsTorqueKept c pressed settled (button-IsTorqueKept c v.clu_button now_s) (
        trans-IsTorqueKept pressed gated settled
          (debounce-IsTorqueKept pressed path.usable_for_steering now_s)
          (trans-IsTorqueKept gated dropped settled
            (drop-IsTorqueKept logical_engaged kind now_s gated)
            (trans-IsTorqueKept dropped noted settled
              (note-IsTorqueKept engage_requested kind now_s dropped)
              (trans-IsTorqueKept noted let_go settled
                (refused-IsTorqueKept (refuses f d engage_requested kind) now_s noted)
                (settle-IsTorqueKept kind now_s let_go))))) in
      record { same_params = h.same_params; torque = h.torque }
