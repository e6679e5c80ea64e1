-- ===== src/Control/Departure.antt =====
-- `DepartureAlertDetector` of src/departure_alert.cc: tells that the lead has driven off, or that the
-- light has changed, once per stop. `float` is of the type `F`, `double` of `D`.
pub mod Once
mod Tests
use supercombo_k.Base.{
  List, [], ◌∷◌, ℕ, ◌+◌, ◌%◌, ◌^◌, Bool, true, false, not, ◌&&◌, ◌||◌, ◌==◌, if◌then◌else◌,
}
use supercombo_k.Base.Int.{ℤ, pos, negsuc, ltb_ℤ}
use supercombo_k.Base.Floats.{Floats}
use supercombo_k.Control.Alerts.{
  DepartureAlertType, no_departure, lead_departed, green_light, is_departure,
}

pub record DepartureAlertInput (F D : Type 0) : Type 0 where
  pub now_s : D
  pub vehicle_valid : Bool
  pub gear : ℤ
  pub speed_mps : F
  pub gas_pressed : Bool
  pub lead_updated : Bool
  pub lead_valid : Bool
  pub lead_distance_m : F
  pub lead_relative_speed_mps : F
  pub model_updated : Bool
  pub model_valid : Bool
  pub plan_distance_m : F

pub record DepartureAlertOutput : Type 0 where
  pub type : DepartureAlertType
  pub event_id : ℕ
  pub lead_armed : Bool
  pub green_light_armed : Bool

pub record DepartureAlertDetector (F D : Type 0) : Type 0 where
  pub consumed : Bool
  pub stopped_since_s : D
  pub lead_seen_since_s : D
  pub lead_depart_candidate_since_s : D
  pub lead_baseline_distance_m : F
  pub lead_armed : Bool
  pub green_light_candidate_since_s : D
  pub green_light_armed : Bool
  pub active_type : DepartureAlertType
  pub active_until_s : D
  pub event_id : ℕ

abbrev drive_gear : ℤ
drive_gear = pos 5

abbrev same_ℤ : ℤ → ℤ → Bool
same_ℤ a b = not (ltb_ℤ a b) && not (ltb_ℤ b a)

-- ++event_id_, which skips 0 when it wraps around.
pub next_event_id : ℕ → ℕ
next_event_id event_id = let next = (event_id + 1) % 2 ^ 32 in if next == 0 then 1 else next

module _ {F D : Type 0} (f : Floats F) (d : Floats D) where
  abbrev zero_s : D
  zero_s = d.lit (pos 0) 0

  abbrev unset_s : D
  unset_s = d.lit (negsuc 0) 0

  pub elapsed : D → D → D → Bool
  elapsed now_s since_s duration_s =
      d.le zero_s since_s && (d.le since_s now_s && d.le duration_s (d.sub now_s since_s))

  pub reset_lead : DepartureAlertDetector F D → DepartureAlertDetector F D
  reset_lead s = record s {
    lead_seen_since_s = unset_s;
    lead_depart_candidate_since_s = unset_s;
    lead_baseline_distance_m = f.lit (pos 0) 0;
    lead_armed = false;
  }

  pub reset_green_light : DepartureAlertDetector F D → DepartureAlertDetector F D
  reset_green_light s = record s {
    green_light_candidate_since_s = unset_s;
    green_light_armed = false;
  }

  pub reset_cycle : DepartureAlertDetector F D → DepartureAlertDetector F D
  unfolding reset_lead reset_green_light
  reset_cycle s =
      reset_green_light (reset_lead (record s { consumed = false; stopped_since_s = unset_s }))

  pub trigger : DepartureAlertType → D → DepartureAlertDetector F D → DepartureAlertDetector F D
  unfolding reset_lead reset_green_light next_event_id
  trigger type now_s s = reset_green_light (
      reset_lead (record s {
        active_type = type;
        active_until_s = d.add now_s (d.lit (pos 3) 0);
        consumed = true;
        event_id = next_event_id s.event_id;
      }))

  -- The alert on display ends with its time.
  pub expire : D → DepartureAlertDetector F D → DepartureAlertDetector F D
  expire now_s s =
      if is_departure s.active_type && d.le s.active_until_s now_s
      then record s { active_type = no_departure }
      else s

  -- A stop ends by driving, by the gas pedal, by another gear.
  pub ends_stop : DepartureAlertInput F D → Bool
  ends_stop i =
      not i.vehicle_valid
      || (not (same_ℤ i.gear drive_gear)
          || (i.gas_pressed
              || (not (f.is_finite i.speed_mps) || f.lt (f.lit (pos 5) 1) i.speed_mps)))

  pub follow_stop :
      DepartureAlertInput F D → DepartureAlertDetector F D → DepartureAlertDetector F D
  unfolding reset_cycle ends_stop
  follow_stop i s =
      if ends_stop i
      then reset_cycle s
      else if f.le i.speed_mps (f.lit (pos 1) 1)
      then record s {
        stopped_since_s = if d.lt s.stopped_since_s zero_s then i.now_s else s.stopped_since_s;
      }
      else reset_green_light (reset_lead (record s { stopped_since_s = unset_s }))

  pub lead_present : DepartureAlertInput F D → Bool
  lead_present i =
      i.lead_valid
      && (f.is_finite i.lead_distance_m
          && (f.le (f.lit (pos 1) 0) i.lead_distance_m
              && f.le i.lead_distance_m (f.lit (pos 30) 0)))

  -- std::min(a, b).
  abbrev min_float : F → F → F
  min_float a b = if f.lt b a then b else a

  -- The lead on a frame that updates it: the state, and whether it has driven off.
  pub watch_lead :
      DepartureAlertInput F D → DepartureAlertDetector F D → DepartureAlertDetector F D × Bool
  unfolding elapsed
  watch_lead i s =
      let first = d.lt s.lead_seen_since_s zero_s in
      let seen_since = if first then i.now_s else s.lead_seen_since_s in
      let base =
        if first
        then i.lead_distance_m
        else min_float s.lead_baseline_distance_m i.lead_distance_m in
      let armed = elapsed i.now_s seen_since (d.lit (pos 1) 0) in
      let departing =
        armed
        && (f.lt (f.lit (pos 5) 1) (f.sub i.lead_distance_m base)
            && f.lt (f.lit (pos 5) 1) i.lead_relative_speed_mps) in
      let candidate =
        if d.lt s.lead_depart_candidate_since_s zero_s
        then i.now_s
        else s.lead_depart_candidate_since_s in
      (
        record s {
          lead_seen_since_s = seen_since;
          lead_baseline_distance_m = base;
          lead_armed = armed;
          lead_depart_candidate_since_s = if departing then candidate else unset_s;
        },
        departing && elapsed i.now_s candidate (d.lit (pos 3) 1),
      )

  -- The traffic light on a frame that updates the model.
  pub watch_light :
      DepartureAlertInput F D → DepartureAlertDetector F D → DepartureAlertDetector F D × Bool
  unfolding elapsed
  watch_light i s =
      let model_stopped =
        f.is_finite i.plan_distance_m
        && (f.lt (f.lit (negsuc 4) 0) i.plan_distance_m
            && f.lt i.plan_distance_m (f.lit (pos 5) 0)) in
      let armed =
        s.green_light_armed
        || (model_stopped && elapsed i.now_s s.stopped_since_s (d.lit (pos 3) 0)) in
      let road_open = armed && f.lt (f.lit (pos 10) 0) i.plan_distance_m in
      let candidate =
        if d.lt s.green_light_candidate_since_s zero_s
        then i.now_s
        else s.green_light_candidate_since_s in
      (
        record s {
          green_light_armed = armed;
          green_light_candidate_since_s = if road_open then candidate else unset_s;
        },
        road_open && elapsed i.now_s candidate (d.lit (pos 3) 1),
      )

  pub lead_step :
      DepartureAlertInput F D → DepartureAlertDetector F D → DepartureAlertDetector F D × Bool
  unfolding watch_lead lead_present
  lead_step i s =
      if lead_present i
      then (if elapsed i.now_s s.stopped_since_s (d.lit (pos 1) 0) && i.lead_updated
          then watch_lead i s
          else (s, false))
      else (reset_lead s, false)

  pub light_step :
      DepartureAlertInput F D → DepartureAlertDetector F D → DepartureAlertDetector F D × Bool
  unfolding watch_light
  light_step i s = if i.model_updated && i.model_valid then watch_light i s else (s, false)

  -- A stop that has not given its alert yet.
  pub watch : DepartureAlertInput F D → DepartureAlertDetector F D → DepartureAlertDetector F D
  unfolding lead_step light_step trigger
  watch i s =
      if d.le zero_s s.stopped_since_s && not s.consumed
      then (let (after_lead, departed) = lead_step i s in
          let (after_light, changed) = light_step i after_lead in
          if departed
          then trigger lead_departed i.now_s after_light
          else if changed
          then trigger green_light i.now_s after_light
          else after_light)
      else s

  pub update :
      DepartureAlertInput F D
      → DepartureAlertDetector F D
      → DepartureAlertDetector F D × DepartureAlertOutput
  unfolding expire follow_stop watch
  update i s =
      let s' = watch i (follow_stop i (expire i.now_s s)) in
      (
        s',
        record {
          type = s'.active_type;
          event_id = s'.event_id;
          lead_armed = s'.lead_armed;
          green_light_armed = s'.green_light_armed;
        },
      )

  pub run : List (DepartureAlertInput F D) → DepartureAlertDetector F D → DepartureAlertDetector F D
  unfolding update
  run [] s = s
  run (i ∷ rest) s = run rest (update i s).0
