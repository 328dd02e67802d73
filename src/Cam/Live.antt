-- ===== src/Cam/Live.antt =====
-- The camera and the program that receives its packets, one behind the other.
use iot_repo.Base.{
  ℕ, zero, suc, ◌<◌, ◌≡◌, ◌∙◌, inl, inr, refl, sym, ap, ap₂, subst, List, [], ◌++◌, Option, none,
  some, Bool-cases, lookup, arith,
}
use iot_repo.Base.Text.{Bytes}
use iot_repo.Cam.Udp.{UdpStreamer, send_frame, send_chunks, total_chunks}
use iot_repo.Cam.Receiver.{receive}
use iot_repo.Cam.Receiver.Others.{receive-append}
use iot_repo.Cam.Mqtt.{StreamingState, streaming, idle}
use iot_repo.Cam.Main.{
  CamBoard, CamMachine, mqtt_loop, loop, run, fresh, setup, camera_begin, begin_all, reconnect,
}
use iot_repo.Cam.Udp
use iot_repo.Cam.Config.{camera_cfg}
use mathlib.Core.Bool.{not}
use Prim.Native.String.{String}
use iot_repo.Cam.Streaming.{taken, sent-loop}
use iot_repo.Cam.Receiver.Frames.{shown, Fits, Quiet, Seen, receive_frame}

image_id-send_frame :
    (o : Option Bytes) (s : UdpStreamer) → s.image_id < 65536 → (send_frame o s).0.image_id < 65536
unfolding send_frame
image_id-send_frame none s a = a
image_id-send_frame (some buf) s a = ground arith

taken-Fits : (s : StreamingState) (o : Option Bytes) → Fits o → Fits (taken s o)
unfolding taken Fits
taken-Fits streaming o fits = fits
taken-Fits idle o fits = λ buf e. cc

-- Nothing is sent yet.
Silent : Option CamMachine → Type 0
Silent none = Unit
Silent (some m) = (m.sent ≡ []) × (m.streamer.image_id ≡ 0)

module _ (b : CamBoard) where
  -- The frame buffer that a pass takes.
  pub pass_frame : CamMachine → Option Bytes
  pass_frame m = let heard = mqtt_loop b m in taken heard.streaming_state (b.fb_get heard.calls)

  -- The frames that that many passes capture while streaming, in their order.
  pub captured : ℕ → CamMachine → List Bytes
  captured zero m = []
  captured (suc k) m = captured k m ++ shown (pass_frame (run b k m))

  pass_frame-Fits : (m : CamMachine) → ((n : ℕ) → Fits (b.fb_get n)) → Fits (pass_frame m)
  unfolding pass_frame
  pass_frame-Fits m fits =
      let heard = mqtt_loop b m in
      taken-Fits heard.streaming_state (b.fb_get heard.calls) (fits heard.calls)

  -- What the operator has seen of a run.
  record Live (frames : List Bytes) (m : CamMachine) : Type 0 where
    small : m.streamer.image_id < 65536
    seen : Seen frames (receive m.sent [])

  loop-Live :
      (frames : List Bytes) (m : CamMachine)
      → Fits (pass_frame m)
      → Live frames m
      → Live (frames ++ shown (pass_frame m)) (loop b m)
  unfolding pass_frame Seen Quiet
  loop-Live frames m fits h =
      let o = pass_frame m in
      let (sent, after) = sent-loop b m in
      let both = receive-append m.sent (send_frame o m.streamer).1 [] in
      let next = receive_frame o m.streamer (receive m.sent []).0 fits h.small h.seen.1 in
      record {
        small =
            subst (λ t. t.image_id < 65536) (sym after) (image_id-send_frame o m.streamer h.small);
        seen =
            subst (λ packets. Seen (frames ++ shown o) (receive packets [])) (sym sent)
              (both.1 ∙ ap₂ (◌++◌) h.seen.0 next.0, λ j. ap (lookup j) both.0 ∙ next.1 j);
      }

  run-Live :
      (k : ℕ) (m : CamMachine)
      → ((n : ℕ) → Fits (b.fb_get n))
      → m.sent ≡ []
      → m.streamer.image_id < 65536
      → Live (captured k m) (run b k m)
  unfolding run captured Seen Quiet receive lookup
  run-Live zero m fits none_yet small = record {
    small = small;
    seen = rw none_yet (refl, λ j. refl);
  }
  run-Live (suc k) m fits none_yet small =
      loop-Live (captured k m) (run b k m) (pass_frame-Fits (run b k m) fits)
        (run-Live k m fits none_yet small)

  reconnect-sent :
      (m : CamMachine) → ((reconnect b m).sent ≡ m.sent) × ((reconnect b m).streamer ≡ m.streamer)
  unfolding reconnect
  reconnect-sent m = (ground arith, ground arith)

  begin_all-Silent :
      (broker udp_ip : String) (o : Option CamMachine)
      → Silent o
      → Silent (begin_all b broker udp_ip o)
  unfolding Silent begin_all Udp.begin
  begin_all-Silent broker udp_ip none h = tt
  begin_all-Silent broker udp_ip (some m) h =
      let (sent, streamer) = reconnect-sent _ in (sent ∙ h.0, ap (λ t. t.image_id) streamer ∙ h.1)

  camera_begin-Silent : Silent (camera_begin b fresh)
  unfolding Silent camera_begin
  camera_begin-Silent = elim (Bool-cases (not (b.camera_init camera_cfg 0))) [
    | inl failed ↦ rw failed tt
    | inr ok ↦ rw ok (elim (Bool-cases (b.has_sensor 1)) [
      | inl there ↦ rw there (refl, refl)
      | inr absent ↦ rw absent (refl, refl)
    ])
  ]

  setup-Silent : (broker udp_ip : String) → Silent (setup b broker udp_ip)
  unfolding setup
  setup-Silent broker udp_ip =
      begin_all-Silent broker udp_ip (camera_begin b fresh) camera_begin-Silent

  -- Where no frame has more than 65,535 chunks and setup ends, the packets of any number of passes
  -- behind it, received in the order in which they went out, show exactly the frames that were
  -- captured while streaming and are not empty, in their order and byte for byte.
  pub receive-run :
      (broker udp_ip : String) (k : ℕ) (m : CamMachine)
      → ((n : ℕ) → Fits (b.fb_get n))
      → setup b broker udp_ip ≡ some m
      → (receive (run b k m).sent []).1 ≡ captured k m
  unfolding Seen Silent
  receive-run broker udp_ip k m fits e =
      let (none_yet, first) = subst Silent e (setup-Silent broker udp_ip) in
      (run-Live k m fits none_yet (omega (arith, first))).seen.0
