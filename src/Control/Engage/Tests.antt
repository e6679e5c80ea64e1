-- ===== src/Control/Engage/Tests.antt =====
-- SET is released in a ready car, before and after the Panda allows it, and with an open door.
use supercombo_k.Base.{◌≡◌, refl, true, false}
use supercombo_k.Base.Int.{ℤ, pos, neg_ℤ, ◌-ℤ◌, ◌*ℤ◌}
use supercombo_k.Control.Inputs.{VehicleCanState}
use supercombo_k.Control.Block.{block_kind, row_of}
use supercombo_k.Control.Engage.{
  Observed, is_hard, update_engagement, update_button_state, debounce_path, active_block_reason,
  gates, first_block, drop_on_fault, note_request, refuses, settle_request, times_out,
  grace_elapsed,
}
use supercombo_k.Control.Engage.Gates.{MaySteer, active-MaySteer}
use supercombo_k.Control.Engage.Handshake.{
  IsWaiting, update_engagement-IsWaiting, update_engagement-hard,
}
use supercombo_k.Control.Engage.Scene.{fixed, ready_car, plan, road, at_rest, seen}

is_active :
    (update_engagement fixed fixed at_rest road plan ready_car (pos 1000) seen).active ≡ true
unfolding update_engagement active_block_reason gates first_block update_button_state debounce_path
    block_kind row_of
is_active = refl

active-MaySteer_example :
    MaySteer fixed fixed
      (update_button_state fixed fixed at_rest (pos 0) (pos 1000))
      road
      plan
      ready_car
      seen
active-MaySteer_example =
    active-MaySteer fixed fixed at_rest road plan ready_car (pos 1000) seen is_active

-- The Panda has not allowed the controls yet.
abbrev not_allowed : Observed ℤ
not_allowed = record seen { panda_controls_allowed = false }

is_pending :
    (update_engagement fixed fixed at_rest road plan ready_car
      (pos 1000)
      not_allowed).controller.panda_engage_pending
    ≡ true
unfolding update_engagement active_block_reason gates first_block update_button_state debounce_path
    drop_on_fault note_request refuses settle_request times_out block_kind row_of neg_ℤ
    grace_elapsed ◌-ℤ◌ ◌*ℤ◌
is_pending = refl

update_engagement-IsWaiting_example :
    let r = update_engagement fixed fixed at_rest road plan ready_car (pos 1000) not_allowed in
    IsWaiting fixed fixed r.controller (block_kind r.active_block) (pos 1000)
update_engagement-IsWaiting_example =
    update_engagement-IsWaiting fixed fixed at_rest road plan ready_car (pos 1000) not_allowed
      (λ p. p) is_pending

abbrev open_door : VehicleCanState ℤ ℤ
open_door = record ready_car { door_open = true }

is_fault :
    is_hard (
      block_kind
        (update_engagement fixed fixed at_rest road plan open_door (pos 1000) seen).active_block)
    ≡ true
unfolding update_engagement active_block_reason gates first_block update_button_state debounce_path
    block_kind row_of
is_fault = refl

update_engagement-hard_example :
    (update_engagement fixed fixed at_rest road plan open_door (pos 1000) seen).controller.engaged
    ≡ false
update_engagement-hard_example =
    update_engagement-hard fixed fixed at_rest road plan open_door (pos 1000) seen is_fault
