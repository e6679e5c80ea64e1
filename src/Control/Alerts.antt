-- ===== src/Control/Alerts.antt =====
-- `OverlayAlertEvents` and `engage_block_label` of src/overlay_state.cc: the controller's event counters
-- become one alert per frame.
pub mod Backlog
use supercombo_k.Base.{
  ℕ, zero, suc, ◌+◌, Bool, true, false, not, ◌&&◌, ◌||◌, List, [], ◌∷◌, Option, none, some, ltb,
  ◌==◌, if◌then◌else◌, Text,
}
use supercombo_k.Ipc.Messages.{K230ControlState}
use supercombo_k.Control.Block.{BlockReason, no_reason, block_reason_from_name, block_reason_label}

-- `DepartureAlertType` of src/departure_alert.h; its none is `no_departure`.
pub data DepartureAlertType : Type 0 where
  no_departure lead_departed green_light : DepartureAlertType

-- `OverlayAlert`; its none is `no_alert`.
pub data OverlayAlert : Type 0 where
  no_alert unable engage disengage signal_changed : OverlayAlert

pub record Decision : Type 0 where
  pub alert : OverlayAlert
  pub event_id : ℕ

pub record OverlayAlertEvents : Type 0 where
  pub initialized : Bool
  pub last_engage : ℕ
  pub last_disengage : ℕ
  pub last_reject : ℕ
  pub last_departure : ℕ

abbrev pub new_events : OverlayAlertEvents
new_events = record {
  initialized = false;
  last_engage = 0;
  last_disengage = 0;
  last_reject = 0;
  last_departure = 0;
}

abbrev pub counter_reset : ℕ → ℕ → Bool
counter_reset current previous = not (previous == 0) && ltb current previous

-- An event that has happened and was not taken yet.
abbrev pub is_new : ℕ → ℕ → Bool
is_new current previous = not (current == 0) && not (current == previous)

abbrev pub is_departure : DepartureAlertType → Bool
is_departure no_departure = false
is_departure lead_departed = true
is_departure green_light = true

module _ {F : Type 0} where
  pub counters_reset : OverlayAlertEvents → K230ControlState F → Bool
  counters_reset events control =
      counter_reset control.engage_event_id events.last_engage
      || (counter_reset control.disengage_event_id events.last_disengage
          || (counter_reset control.engage_reject_event_id events.last_reject
              || counter_reset control.departure_alert_event_id events.last_departure))

  -- The counters as they stand now become the base; true says that this frame set it.
  pub baseline : OverlayAlertEvents → K230ControlState F → OverlayAlertEvents × Bool
  unfolding counters_reset
  baseline events control =
      if events.initialized && not (counters_reset events control) then (events, false) else (
        record {
          initialized = true;
          last_engage = control.engage_event_id;
          last_disengage = control.disengage_event_id;
          last_reject = control.engage_reject_event_id;
          last_departure = control.departure_alert_event_id;
        },
        true,
      )

  -- What `update` does when no base was set.
  pub announce :
      OverlayAlertEvents → K230ControlState F → DepartureAlertType → OverlayAlertEvents × Decision
  announce events control departure_type =
      if is_new control.engage_reject_event_id events.last_reject
      then (
        record events { last_reject = control.engage_reject_event_id },
        record { alert = unable; event_id = control.engage_reject_event_id },
      )
      else if is_new control.engage_event_id events.last_engage
      then (
        record events { last_engage = control.engage_event_id },
        record { alert = engage; event_id = control.engage_event_id },
      )
      else if is_new control.disengage_event_id events.last_disengage
      then (
        record events { last_disengage = control.disengage_event_id },
        record { alert = disengage; event_id = control.disengage_event_id },
      )
      else if is_departure departure_type
          && is_new control.departure_alert_event_id events.last_departure
      then (
        record events { last_departure = control.departure_alert_event_id },
        record { alert = signal_changed; event_id = control.departure_alert_event_id },
      )
      else (events, record { alert = no_alert; event_id = 0 })

  pub update :
      OverlayAlertEvents → K230ControlState F → DepartureAlertType → OverlayAlertEvents × Decision
  unfolding baseline announce
  update events control departure_type =
      let (events', based) = baseline events control in
      if based
      then (events', record { alert = no_alert; event_id = 0 })
      else announce events' control departure_type

-- `none` is a null pointer.
pub engage_block_label : Option Text → Option Text
engage_block_label none = none
engage_block_label (some []) = none
engage_block_label (some (c ∷ block)) = elim (block_reason_from_name (some (c ∷ block))) [
  | no_reason ↦ none
  | reason ↦ some (block_reason_label reason)
]
