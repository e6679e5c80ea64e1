-- ===== src/Control/Departure/Once.antt =====
-- One alert per stop.
use mathlib.Core.Bool.{false≢true}
use supercombo_k.Base.{
  List, [], ◌∷◌, All, ◌≡◌, refl, sym, ap, ◌∙◌, Bool, true, false, not, ◌&&◌, arith, Bool-cases, inl,
  inr, ◌⊎◌,
}
use supercombo_k.Base.Int.{pos}
use supercombo_k.Base.Floats.{Floats}
use supercombo_k.Control.Alerts.{DepartureAlertType, lead_departed, green_light, is_departure}
use supercombo_k.Control.Departure.{
  DepartureAlertInput, DepartureAlertDetector, next_event_id, expire, follow_stop, lead_step,
  light_step, watch, trigger, update, watch_lead, watch_light, lead_present, elapsed, reset_lead,
  reset_green_light, ends_stop, run,
}

module _ {F D : Type 0} (f : Floats F) (d : Floats D) where
  -- Neither an alert nor its mark.
  abbrev pub IsKept : DepartureAlertDetector F D → DepartureAlertDetector F D → Type 0
  IsKept s s' = (s'.event_id ≡ s.event_id) × (s'.consumed ≡ s.consumed)

  -- One alert, which uses up the stop.
  abbrev pub IsAlert : DepartureAlertDetector F D → DepartureAlertDetector F D → Type 0
  IsAlert s s' =
      (s.consumed ≡ false) × (s'.consumed ≡ true) × (s'.event_id ≡ next_event_id s.event_id)

  lead_step-IsKept :
      (i : DepartureAlertInput F D) (s : DepartureAlertDetector F D)
      → IsKept s (lead_step f d i s).0
  unfolding lead_step watch_lead reset_lead
  lead_step-IsKept i s = elim (Bool-cases (lead_present f d i)) [
    | inl p ↦
        elim (Bool-cases
          (elapsed f d i.now_s s.stopped_since_s (d.lit (pos 1) 0) && i.lead_updated)) [
            | inl e ↦ rw (p, e) (refl, refl)
            | inr e ↦ rw (p, e) (refl, refl)
          ]
    | inr p ↦ rw p (refl, refl)
  ]

  light_step-IsKept :
      (i : DepartureAlertInput F D) (s : DepartureAlertDetector F D)
      → IsKept s (light_step f d i s).0
  unfolding light_step watch_light
  light_step-IsKept i s = elim (Bool-cases (i.model_updated && i.model_valid)) [
    | inl e ↦ rw e (refl, refl)
    | inr e ↦ rw e (refl, refl)
  ]

  trigger-event :
      (type : DepartureAlertType) (now_s : D) (s : DepartureAlertDetector F D)
      → ((trigger f d type now_s s).event_id ≡ next_event_id s.event_id)
        × ((trigger f d type now_s s).consumed ≡ true)
  unfolding trigger reset_lead reset_green_light
  trigger-event type now_s s = (refl, refl)

  not_used : (a b : Bool) → (a && not b) ≡ true → b ≡ false
  not_used a b e = ground arith

  watch-IsAlert :
      (i : DepartureAlertInput F D) (s : DepartureAlertDetector F D)
      → IsKept s (watch f d i s) ⊎ IsAlert s (watch f d i s)
  unfolding watch
  watch-IsAlert i s =
      let lead = lead_step f d i s in
      let light = light_step f d i lead.0 in
      let id : light.0.event_id ≡ s.event_id =
        (light_step-IsKept i lead.0).0 ∙ (lead_step-IsKept i s).0 in
      let used : light.0.consumed ≡ s.consumed =
        (light_step-IsKept i lead.0).1 ∙ (lead_step-IsKept i s).1 in
      elim (Bool-cases (d.le (d.lit (pos 0) 0) s.stopped_since_s && not s.consumed)) [
        | inl e ↦
            let open' : s.consumed ≡ false =
              not_used (d.le (d.lit (pos 0) 0) s.stopped_since_s) s.consumed e in
            elim (Bool-cases lead.1) [
              | inl departed ↦
                  let t = trigger-event lead_departed i.now_s light.0 in
                  rw (e, departed) (inr (open', t.1, t.0 ∙ ap next_event_id id))
              | inr stayed ↦ elim (Bool-cases light.1) [
                | inl changed ↦
                    let t = trigger-event green_light i.now_s light.0 in
                    rw (e, stayed, changed) (inr (open', t.1, t.0 ∙ ap next_event_id id))
                | inr same ↦ rw (e, stayed, same) (inl (id, used))
              ]
            ]
        | inr e ↦ rw e (inl (refl, refl))
      ]

  expire-IsKept : (now_s : D) (s : DepartureAlertDetector F D) → IsKept s (expire f d now_s s)
  unfolding expire
  expire-IsKept now_s s =
      elim (Bool-cases (is_departure s.active_type && d.le s.active_until_s now_s)) [
        | inl e ↦ rw e (refl, refl)
        | inr e ↦ rw e (refl, refl)
      ]

  follow_stop-IsKept :
      (i : DepartureAlertInput F D) (s : DepartureAlertDetector F D)
      → ends_stop f d i ≡ false
      → IsKept s (follow_stop f d i s)
  unfolding follow_stop reset_lead reset_green_light
  follow_stop-IsKept i s stays = elim (Bool-cases (f.le i.speed_mps (f.lit (pos 1) 1))) [
    | inl e ↦ rw (stays, e) (refl, refl)
    | inr e ↦ rw (stays, e) (refl, refl)
  ]

  update-IsAlert :
      (i : DepartureAlertInput F D) (s : DepartureAlertDetector F D)
      → ends_stop f d i ≡ false
      → IsKept s (update f d i s).0 ⊎ IsAlert s (update f d i s).0
  unfolding update
  update-IsAlert i s stays =
      let first = expire-IsKept i.now_s s in
      let second = follow_stop-IsKept i (expire f d i.now_s s) stays in
      let id = second.0 ∙ first.0 in
      let used = second.1 ∙ first.1 in
      elim (watch-IsAlert i (follow_stop f d i (expire f d i.now_s s))) [
        | inl (e, u) ↦ inl (e ∙ id, u ∙ used)
        | inr (o, u, e) ↦ inr (sym used ∙ o, u, e ∙ ap next_event_id id)
      ]

  abbrev pub IsStay : DepartureAlertInput F D → Type 0
  IsStay i = ends_stop f d i ≡ false

  -- While nothing ends the stop, at most one alert is given, and none after an alert was given.
  pub run-IsAlert :
      (inputs : List (DepartureAlertInput F D)) (s : DepartureAlertDetector F D)
      → All IsStay inputs
      → IsKept s (run f d inputs s) ⊎ IsAlert s (run f d inputs s)
  unfolding run
  run-IsAlert [] s h = inl (refl, refl)
  run-IsAlert (i ∷ rest) s h =
      let s' = (update f d i s).0 in
      elim (update-IsAlert i s h.0) [
        | inl (e, u) ↦ elim (run-IsAlert rest s' h.1) [
          | inl (e', u') ↦ inl (e' ∙ e, u' ∙ u)
          | inr (o, u', e') ↦ inr (sym u ∙ o, u', e' ∙ ap next_event_id e)
        ]
        | inr (o, u, e) ↦ elim (run-IsAlert rest s' h.1) [
          | inl (e', u') ↦ inr (o, u' ∙ u, e' ∙ e)
          | inr (o', u', e') ↦ absurd (false≢true (sym o' ∙ u))
        ]
      ]
