-- ===== src/Operator.antt =====
-- soy-pc/features/worker: the operator's program at the line. process_controller.py, qr_gate.py,
-- classifier.py and states/ with what classify_page.py does in their callbacks. The MQTT client, the
-- server, the clock, the JSON reader and the window are parameters, and the n-th call is answered by
-- the world at n. Times are whole milliseconds; a text is the list of its code points.
pub mod Words
mod Gate
mod Callbacks
pub mod Counting
mod Transition
mod States
mod Page
mod Heard
mod Working
mod Running
mod Watching
mod Following
mod Releasing
pub mod Counts
mod Deciding
mod Restarting
mod Camera
mod Tests
use iot_repo.Base.{ℕ, Bool, true, false, ◌==◌, List, [], ◌∷◌, Option, none, some}
use iot_repo.Base.Text.{Bytes}

pub data SortDirection : Type 0 where
  line_1l line_2l warn : SortDirection

pub data FsmState : Type 0 where
  fsm_idle fsm_running fsm_paused : FsmState

pub data SensorEvent : Type 0 where
  proximity_on proximity_off camera_detect : SensorEvent
  s1_detected s2_detected s3_detected s4_detected s5_detected : SensorEvent
  camera_timeout sort_timeout_1l sort_timeout_2l : SensorEvent

-- The classes of states/.
pub data StateName : Type 0 where
  idle_state active_state paused_state : StateName

pub data Station : Type 0 where
  station_1l station_2l : Station

-- The fields of a process that are counted.
pub data QtyField : Type 0 where
  success_1l success_2l unclassified : QtyField

pub record QrGate : Type 0 where
  pub last_enqueue_ts : ℕ
  pub last_registered_code : Option Bytes
  pub camera_gate_open : Bool
  pub process_active : Bool

-- QrGate.reset, which leaves what the class starts with.
abbrev pub closed_gate : QrGate
closed_gate = record {
  last_enqueue_ts = 0;
  last_registered_code = none;
  camera_gate_open = false;
  process_active = false;
}

-- A process of the server; a field that is missing, None or 0 is 0.
pub record Process : Type 0 where
  pub process_id : ℕ
  pub order_id : ℕ
  pub success_1l_qty : ℕ
  pub success_2l_qty : ℕ
  pub unclassified_qty : ℕ
  pub order_total_qty : ℕ

-- An order with the item codes of its items.
pub record Order : Type 0 where
  pub order_id : ℕ
  pub items : List Bytes

-- What the program does to the outside: publish(TOPIC_CONTROL, text), and the calls of the server
-- that change a process.
pub data Call : Type 0 where
  control : Bytes → Call
  api_process_start api_process_stop : ℕ → Call
  api_process_update : ℕ → QtyField → ℕ → Call

-- What ProcessState.reset clears.
pub record ProcessState : Type 0 where
  pub process_id : Option ℕ
  pub order_items : List Bytes
  pub process_data : Option Process
  pub current_item : Option (Bytes × SortDirection)
  pub station_1l_active : Bool
  pub station_2l_active : Bool
  pub expected_total_count : ℕ

abbrev pub no_process : ProcessState
no_process = record {
  process_id = none;
  order_items = [];
  process_data = none;
  current_item = none;
  station_1l_active = false;
  station_2l_active = false;
  expected_total_count = 0;
}

-- The values of dc_spin, servo_a_spin and servo_b_spin.
pub record SpinBoxes : Type 0 where
  pub dc_spin : ℕ
  pub servo_a_spin : ℕ
  pub servo_b_spin : ℕ

-- The controller and what the page keeps beside it: the list of processes, whether the timers of
-- the servos run, the state that the buttons go by, and the spin boxes. `effects` are the calls
-- made, newest first.
pub record Operator : Type 0 where
  pub current_state : StateName
  pub state : ProcessState
  pub qr_gate : QrGate
  pub last_watchdog_ts : ℕ
  pub classify_processes : List Process
  pub timer_servo_1l : Bool
  pub timer_servo_2l : Bool
  pub current_fsm_state : FsmState
  pub spin_boxes : SpinBoxes
  pub effects : List Call
  pub calls : ℕ

pub record World : Type 0 where
  pub lower : Bytes → Bytes
  -- `json.loads(text).get("state", "")`, none where it raises
  pub json_state : Bytes → Option Bytes
  -- `json.loads(text).get("item_code", "")`, none where it raises
  pub json_item_code : Bytes → Option Bytes
  pub monotonic : ℕ → ℕ
  -- whether process_start returns
  pub process_start : ℕ → Bool
  -- none where they raise
  pub list_orders : ℕ → Option (List Order)
  pub list_processes : ℕ → Option (List Process)
  -- what re.search finds of DEFAULT_SPEED, SORT_DEG_A and SORT_DEG_B in the conveyor's config.h, none
  -- where there is no match or no file
  pub found_speed : Option ℕ
  pub found_deg_a : Option ℕ
  pub found_deg_b : Option ℕ
  -- the value that a QSpinBox with the range from `lo` to `hi` takes when it is to be `v`
  pub spin_value : (lo hi v : ℕ) → ℕ

abbrev pub or_default : ℕ → Option ℕ → ℕ
or_default value none = value
or_default value (some n) = n

module _ (w : World) where
  -- The three boxes show what _load_hardware_configs returns, within their ranges.
  abbrev pub hardware : SpinBoxes
  hardware = record {
    dc_spin = w.spin_value 150 255 (or_default 180 w.found_speed);
    servo_a_spin = w.spin_value 0 45 (or_default 45 w.found_deg_a);
    servo_b_spin = w.spin_value 0 45 (or_default 35 w.found_deg_b);
  }

  -- The page when it opens. The boxes are filled before their signals are connected.
  abbrev pub fresh : Operator
  fresh = record {
    current_state = idle_state;
    state = no_process;
    qr_gate = closed_gate;
    last_watchdog_ts = 0;
    classify_processes = [];
    timer_servo_1l = false;
    timer_servo_2l = false;
    current_fsm_state = fsm_idle;
    spin_boxes = hardware;
    effects = [];
    calls = 0;
  }

abbrev pub publish : Bytes → Operator → Operator
publish text m = record m { effects = control text ∷ m.effects }

abbrev pub is_some : Option ℕ → Bool
is_some none = false
is_some (some pid) = true

-- ProcessState.is_active.
abbrev pub is_active : Operator → Bool
is_active m = is_some m.state.process_id
