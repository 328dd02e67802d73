-- ===== src/Operator/Working/Sensors.antt =====
-- The invariant behind an event of the sensors. A QSpinBox keeps its range.
use iot_repo.Base.{ℕ, refl, true, false, Option, none, some, arith}
use iot_repo.Base.Text.{Bytes}
use iot_repo.Operator.{
  SortDirection, line_1l, line_2l, warn, SensorEvent, proximity_on, proximity_off, camera_detect,
  s1_detected, s2_detected, s3_detected, s4_detected, s5_detected, camera_timeout, sort_timeout_1l,
  sort_timeout_2l, station_1l, station_2l, Operator, World,
}
use iot_repo.Operator.Gate.{open_camera_gate}
use iot_repo.Operator.States.{
  open_for_1l, open_for_2l, camera_detected, handle_s1_detected, handle_s2_detected, active_event,
  paused_event,
}
use iot_repo.Operator.Heard.{turns_a, turns_b}
use iot_repo.Operator.Working.{widen, KeepsRange, with_detection, Working, publish-Working}
use iot_repo.Operator.Working.Finishing.{
  sorted_1l-Working, sorted_2l-Working, passed_all-Working, timed_out-Working,
  handle_sort_timeout-Working,
}

pub handle_s1_detected-Working :
    {n : ℕ} (m : Operator) (o : Option (Bytes × SortDirection))
    → Working n m
    → Working n (open_for_1l m o)
handle_s1_detected-Working m none h = h
handle_s1_detected-Working m (some (code, line_1l)) h =
    publish-Working m (turns_a m.spin_boxes.servo_a_spin h.1.ranged.angle_a) refl h
handle_s1_detected-Working m (some (code, line_2l)) h = h
handle_s1_detected-Working m (some (code, warn)) h = h

pub handle_s2_detected-Working :
    {n : ℕ} (m : Operator) (o : Option (Bytes × SortDirection))
    → Working n m
    → Working n (open_for_2l m o)
handle_s2_detected-Working m none h = h
handle_s2_detected-Working m (some (code, line_2l)) h =
    publish-Working m (turns_b m.spin_boxes.servo_b_spin h.1.ranged.angle_b) refl h
handle_s2_detected-Working m (some (code, line_1l)) h = h
handle_s2_detected-Working m (some (code, warn)) h = h

module _ (w : World) (keeps : KeepsRange w) where
  pub active_event-Working :
      {n : ℕ} (e : SensorEvent) (m : Operator)
      → Working n m
      → Working (with_detection e n) (active_event w e m)
  unfolding handle_s1_detected handle_s2_detected camera_detected open_camera_gate
  active_event-Working camera_detect m (awake, h) = (
    awake,
    record {
      guarded = h.guarded;
      ranged = h.ranged;
      budget = omega (arith, h.budget);
      understood = h.understood;
    },
  )
  active_event-Working camera_timeout m h = h
  active_event-Working proximity_on m h = h
  active_event-Working proximity_off m h = h
  active_event-Working s1_detected m h = handle_s1_detected-Working m m.state.current_item h
  active_event-Working s2_detected m h = handle_s2_detected-Working m m.state.current_item h
  active_event-Working s3_detected m h = sorted_1l-Working w keeps m h
  active_event-Working s4_detected m h = sorted_2l-Working w keeps m h
  active_event-Working s5_detected m h = passed_all-Working w keeps true m h
  active_event-Working sort_timeout_1l m h = handle_sort_timeout-Working w keeps station_1l m h
  active_event-Working sort_timeout_2l m h = handle_sort_timeout-Working w keeps station_2l m h

pub paused_event-Working :
    (w : World) (keeps : KeepsRange w) {n : ℕ} (e : SensorEvent) (m : Operator)
    → Working n m
    → Working (with_detection e n) (paused_event w e m)
paused_event-Working w keeps camera_detect m (awake, h) = (awake, widen camera_detect h)
paused_event-Working w keeps camera_timeout m h = h
paused_event-Working w keeps proximity_on m h = h
paused_event-Working w keeps proximity_off m h = h
paused_event-Working w keeps s1_detected m h = h
paused_event-Working w keeps s2_detected m h = h
paused_event-Working w keeps s3_detected m h = sorted_1l-Working w keeps m h
paused_event-Working w keeps s4_detected m h = sorted_2l-Working w keeps m h
paused_event-Working w keeps s5_detected m h = passed_all-Working w keeps false m h
paused_event-Working w keeps sort_timeout_1l m h = timed_out-Working w keeps station_1l m h
paused_event-Working w keeps sort_timeout_2l m h = timed_out-Working w keeps station_2l m h
