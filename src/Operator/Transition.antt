-- ===== src/Operator/Transition.antt =====
-- The transitions of process_controller.py with on_enter of the states, whose on_exit does nothing;
-- pausing and going on.
use iot_repo.Base.{Bool, true, if◌then◌else◌, Option}
use iot_repo.Base.Text.{Bytes, codes}
use iot_repo.Operator.{
  SortDirection, StateName, idle_state, active_state, paused_state, fsm_running, fsm_paused,
  closed_gate, no_process, Operator, publish, is_active,
}
use iot_repo.Operator.Gate.{set_process_active}
use iot_repo.Operator.Callbacks.{update_buttons}

abbrev pub on_enter : StateName → Operator → Operator
on_enter idle_state m = record m { state = no_process; qr_gate = closed_gate }
on_enter active_state m = record m { qr_gate = set_process_active true m.qr_gate }
on_enter paused_state m = m

unfoldable pub transition_to : StateName → Operator → Operator
transition_to new_state m = on_enter new_state (record m { current_state = new_state })

-- Without a process nothing happens.
unfoldable pub pause : Operator → Operator
unfolding transition_to
pause m =
    if is_active m
    then update_buttons fsm_paused (publish (codes "SORT_PAUSE") (transition_to paused_state m))
    else m

unfoldable pub resume : Operator → Operator
unfolding transition_to
resume m =
    if is_active m
    then update_buttons fsm_running (publish (codes "SORT_RESUME") (transition_to active_state m))
    else m

abbrev pub set_item : Option (Bytes × SortDirection) → Operator → Operator
set_item item m = record m { state = record m.state { current_item = item } }

abbrev pub set_station_1l : Bool → Operator → Operator
set_station_1l busy m = record m { state = record m.state { station_1l_active = busy } }

abbrev pub set_station_2l : Bool → Operator → Operator
set_station_2l busy m = record m { state = record m.state { station_2l_active = busy } }
