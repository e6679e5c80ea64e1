-- ===== src/Control/Holds/Tests.antt =====
-- The hold at work: a report that is ready, then one that is lost 60 ms later.
use supercombo_k.Base.{ℕ, ◌+◌, ◌≤◌, ◌≡◌, refl, true, false, [], ◌∷◌, ◌⊎◌}
use supercombo_k.Ipc.Messages.{K230PandaState, timestamp_fresh_ns}
use supercombo_k.Control.Holds.{
  new_gate, is_ready_raw, note_ready, holds, update, run, panda_health_hold_ns,
}
use supercombo_k.Control.Holds.Window.{IsReport, IsReported, controls_allowed-IsReported}

abbrev ready : K230PandaState
ready = record {
  timestamp_ns = 1000;
  connected = 1;
  comms_healthy = 1;
  tx_enabled = 1;
  controls_allowed = 1;
  ignition_line = 0;
  ignition_can = 0;
  safety_mode = 24;
  safety_param = 0;
  panda_type = 0;
  can_rx_errs = 0;
  can_send_errs = 0;
  can_fwd_errs = 0;
  blocked_msg_cnt = 0;
  heartbeat_lost = 0;
  usb_tx_timeouts = 0;
  usb_tx_retries = 0;
  malformed_rx_batches = 0;
  faults = 0;
  fault_status = 0;
  voltage = 0;
  current = 0;
}

abbrev lost : K230PandaState
lost = record ready { comms_healthy = 0 }

is_held : (update (run new_gate ((ready, 2000) ∷ [])) lost 60002000 false).1.controls_allowed ≡ true
unfolding update run note_ready holds is_ready_raw timestamp_fresh_ns
is_held = refl

controls_allowed-IsReported_example :
    IsReport true lost 60002000
    ⊎ ((is_ready_raw lost 60002000 ≡ false)
        × ((at : ℕ) × IsReported ((ready, 2000) ∷ []) true at
            × (at ≤ 60002000)
            × (60002000 ≤ at + panda_health_hold_ns)))
controls_allowed-IsReported_example =
    controls_allowed-IsReported ((ready, 2000) ∷ []) lost 60002000 is_held
