-- ===== src/Cam/Tests.antt =====
-- Runs of the camera firmware at concrete inputs.
use iot_repo.Base.{
  ℕ, zero, suc, none, sym, subst, ◌*◌, ◌≤◌, ◌≡◌, refl, true, List, [], ◌∷◌, ◌++◌, some, length,
  arith,
}
use iot_repo.Base.Int.{pos}
use iot_repo.Base.Text.{Bytes, codes}
use iot_repo.Board.{Message}
use iot_repo.Cam.Udp.{packet, send_frame}
use iot_repo.Cam.Mqtt.{handle_camera_command}
use mathlib.Core.List.{Permᴰ}
use iot_repo.Cam.Udp.{UdpStreamer}
use iot_repo.Cam.Udp
use iot_repo.Cam.Receiver.{Buffers, receive, receive_packet}
use iot_repo.Base.{lookup}
use iot_repo.Cam.Receiver.Order.{receive-send_frame}
use iot_repo.Cam.Receiver.Bound.{length-receive_packet}
use iot_repo.Cam.Live.{captured, receive-run}
use iot_repo.Cam.Receiver.Frames.{Fits}
use iot_repo.Cam.Mqtt.{vflip, raw_callback}
use iot_repo.Cam.Receiver.{chunk}
use iot_repo.Base.{ap}
use iot_repo.Cam.Main.{
  setup, run_fsm, run_state, handle_streaming, CamBoard, CamMachine, fresh, mqtt_loop, loop, run,
}

abbrev control : Bytes → Message
control text = record { topic = codes "device/control"; payload = text }

abbrev orders : List Message
orders =
    control (codes "SORT_STOP") ∷ control (codes "SORT_START") ∷ control (codes "CAM:VFLIP:1") ∷ []

abbrev frame : Bytes
frame = codes "a small frame"

-- Each delivery ends with streaming on, and each capture brings the same frame.
abbrev bench : CamBoard
bench = record {
  millis = λ n. 20 * n;
  mqtt_connected = λ n. true;
  mqtt_connect = λ n. true;
  mqtt_loop = λ n. orders;
  camera_init = λ config n. true;
  has_sensor = λ n. true;
  fb_get = λ n. some frame;
}

abbrev ready : CamMachine
ready = record fresh { mqtt = record (fresh.mqtt) { has_state = true } }

abbrev black : ℕ → Bytes
black zero = []
black (suc n) = 0 ∷ black n

abbrev large : Bytes
large = black 1025 ++ codes "end"

abbrev two_packets : List Bytes
two_packets = packet large 0 2 1 ∷ packet large 0 2 0 ∷ []

sent_in_order : (send_frame (some large) Udp.fresh).1 ≡ packet large 0 2 0 ∷ packet large 0 2 1 ∷ []
unfolding send_frame
sent_in_order = refl

-- An image of which a packet was lost.
abbrev earlier : Buffers
earlier = (9, record { total = 2; chunks = (0, codes "old") ∷ [] }) ∷ []

-- The second packet comes first.
receive-send_frame_example :
    let got = receive two_packets earlier in (got.1 ≡ large ∷ []) × (lookup 0 got.0 ≡ none)
unfolding lookup
receive-send_frame_example =
    receive-send_frame large Udp.fresh two_packets earlier (omega arith) (omega arith) (omega arith)
      refl (subst (Permᴰ two_packets) (sym sent_in_order) (Permᴰ.swap refl refl))

-- The first packets of three frames whose second packets are lost.
abbrev halves : List Bytes
halves = packet large 5 2 0 ∷ packet large 6 2 0 ∷ packet large 7 2 0 ∷ []

three_images : length (receive halves []).0 ≡ 3
unfolding receive packet Udp.header Udp.payload
three_images = refl

length-receive_packet_example :
    length (receive_packet (packet large 8 2 0) (receive halves []).0).0 ≤ 3
length-receive_packet_example =
    length-receive_packet (packet large 8 2 0) (receive halves []).0 (omega (arith, three_images))

-- The camera behind `setup`.
abbrev started : CamMachine
started = record fresh {
  streamer = record { dest_ip = "192.168.0.3"; dest_port = 8021; image_id = 0 };
  mqtt = record (fresh.mqtt) { broker = "192.168.0.2"; port = 1883; has_state = true };
  applied = (vflip, pos 1) ∷ [];
  calls = 4;
}

started_lem : setup bench "192.168.0.2" "192.168.0.3" ≡ some started
unfolding setup
started_lem = refl

frame_fits : (n : ℕ) (buf : Bytes) → bench.fb_get n ≡ some buf → length buf ≤ 65535 * 1024
frame_fits n buf e = let same : frame ≡ buf = cc in omega (arith, ap length same)

receive-run_example : (receive (run bench 3 started).sent []).1 ≡ captured bench 3 started
receive-run_example =
    receive-run bench "192.168.0.2" "192.168.0.3" 3 started (unfold Fits in frame_fits) started_lem

-- Three passes show three frames.
captured_test : (receive (run bench 3 started).sent []).1 ≡ frame ∷ frame ∷ frame ∷ []
unfolding run receive loop run_fsm run_state mqtt_loop raw_callback handle_camera_command
    handle_streaming send_frame packet Udp.header Udp.payload chunk
captured_test = refl
