-- ===== src/Control/Alerts/Backlog.antt =====
-- The events that wait for their alert, and the order in which they get it.
use supercombo_k.Base.{
  ℕ, ◌≡◌, refl, Bool, true, false, not, ◌&&◌, List, [], ◌∷◌, if◌then◌else◌, arith, Bool-cases, inl,
  inr, ◌⊎◌,
}
use supercombo_k.Ipc.Messages.{K230ControlState}
use supercombo_k.Control.Alerts.{
  DepartureAlertType, OverlayAlert, no_alert, unable, engage, disengage, signal_changed, Decision,
  OverlayAlertEvents, is_new, is_departure, counters_reset, baseline, announce, update,
}

abbrev waits : Bool → OverlayAlert → ℕ → List Decision → List Decision
waits b alert event_id rest =
    if b then record { alert = alert; event_id = event_id } ∷ rest else rest

module _ {F : Type 0} (control : K230ControlState F) (departure_type : DepartureAlertType) where
  -- The events that were not announced, the most urgent first: a refused engagement, an engagement, a
  -- disengagement, a change of the signal.
  abbrev pub waiting : OverlayAlertEvents → List Decision
  waiting events =
      waits (is_new control.engage_reject_event_id events.last_reject) unable
        control.engage_reject_event_id
        (waits (is_new control.engage_event_id events.last_engage) engage control.engage_event_id (
          waits (is_new control.disengage_event_id events.last_disengage) disengage
            control.disengage_event_id
            (waits
              (is_departure departure_type
                && is_new control.departure_alert_event_id events.last_departure)
              signal_changed control.departure_alert_event_id [])))

  is_new_self : (n : ℕ) → is_new n n ≡ false
  is_new_self n = ground arith

  -- The head of the list is announced and the rest still waits.
  abbrev pub IsNext : OverlayAlertEvents → OverlayAlertEvents → Decision → Type 0
  IsNext events events' decision =
      ((waiting events ≡ [])
        × (decision ≡ record { alert = no_alert; event_id = 0 })
        × (events' ≡ events))
      ⊎ (waiting events ≡ decision ∷ waiting events')

  announce-IsNext :
      (events : OverlayAlertEvents)
      → let (events', decision) = announce events control departure_type in
        IsNext events events' decision
  unfolding announce
  announce-IsNext events =
      elim (Bool-cases (is_new control.engage_reject_event_id events.last_reject)) [
        | inl e ↦ rw (e, is_new_self control.engage_reject_event_id) (inr refl)
        | inr e ↦ elim (Bool-cases (is_new control.engage_event_id events.last_engage)) [
          | inl f ↦ rw (e, f, e, is_new_self control.engage_event_id) (inr refl)
          | inr f ↦ elim (Bool-cases (is_new control.disengage_event_id events.last_disengage)) [
            | inl g ↦ rw (e, f, g, e, f, is_new_self control.disengage_event_id) (inr refl)
            | inr g ↦ elim (Bool-cases (is_departure departure_type)) [
              | inl d ↦
                  elim (Bool-cases
                    (is_new control.departure_alert_event_id events.last_departure)) [
                      | inl h ↦
                          rw (e, f, g, d, h, e, f, g, is_new_self control.departure_alert_event_id)
                            (inr refl)
                      | inr h ↦ rw (e, f, g, d, h) (inl (refl, refl, refl))
                    ]
              | inr d ↦ rw (e, f, g, d) (inl (refl, refl, refl))
            ]
          ]
        ]
      ]

  -- An update that sets the base of the counters announces nothing and leaves nothing waiting. Any
  -- other announces the first of the waiting events, a refused engagement before an engagement before
  -- a disengagement before a change of the signal, each as its own alert under its own event id, and
  -- leaves exactly the rest waiting; it announces nothing and changes nothing if none waits.
  pub update-IsNext :
      (events : OverlayAlertEvents)
      → let (events', decision) = update events control departure_type in
        (((baseline events control).1 ≡ true)
          × (decision ≡ record { alert = no_alert; event_id = 0 })
          × (waiting events' ≡ []))
        ⊎ (((baseline events control).1 ≡ false) × IsNext events events' decision)
  unfolding update baseline
  update-IsNext events =
      elim (Bool-cases (events.initialized && not (counters_reset events control))) [
        | inl e ↦ rw e (inr (refl, announce-IsNext events))
        | inr e ↦ rw e (inl (refl, refl, nothing_waits))
      ]
    where
      nothing_waits :
          waiting (record {
            initialized = true;
            last_engage = control.engage_event_id;
            last_disengage = control.disengage_event_id;
            last_reject = control.engage_reject_event_id;
            last_departure = control.departure_alert_event_id;
          })
          ≡ []
      nothing_waits =
          rw
            (
              is_new_self control.engage_reject_event_id,
              is_new_self control.engage_event_id,
              is_new_self control.disengage_event_id,
              is_new_self control.departure_alert_event_id,
            )
            (ground arith)
