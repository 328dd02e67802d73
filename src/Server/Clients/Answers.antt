-- ===== src/Server/Clients/Answers.antt =====
-- The requests of a connection beside the requests of the messages that it carries.
use iot_repo.Base.{
  All, ℕ, suc, ◌+◌, ◌≤◌, ◌<◌, ◌≡◌, refl, ◌∙◌, ap, true, List, [], ◌∷◌, ◌++◌, some, length,
  append_assoc, arith,
}
use iot_repo.Base.Text.{Bytes}
use iot_repo.Server.{Host, ServerState}
use iot_repo.Server.Requests.{handle_request}
use iot_repo.Server.Frames.{max_frame_payload, send_frame}
use iot_repo.Server.Frames.RoundTrip.{Delivers, read_frame-send_frame}
use iot_repo.Server.Clients.{
  Message, Line, Client, request_at, on_message, on_frame, client_step, client_run,
}

-- The connection hands out what comes, and stays.
pub record Works (w : Line) : Type 0 where
  pub delivers : Delivers w.sock
  pub sends_all : (i : ℕ) → w.sends i ≡ true

-- The JSON of a message is read back and fits a frame.
pub record Readable (w : Line) (encode : Message → Bytes) (m : Message) : Type 0 where
  pub loads_encode : w.loads (encode m) ≡ some m
  pub not_empty : 0 < length (encode m)
  pub small : length (encode m) ≤ max_frame_payload

-- What the client sends for its messages.
unfoldable pub frames : (Message → Bytes) → List Message → Bytes
unfolding send_frame
frames encode [] = []
frames encode (m ∷ ms) = send_frame (encode m) ++ frames encode ms

-- The server with each message handled once, in order, and the replies, the last one first.
unfoldable pub answer_all :
    Host → Line → ℕ → List Message → ServerState → List Bytes → ServerState × List Bytes
unfolding handle_request send_frame
answer_all h w i [] s sent = (s, sent)
answer_all h w i (m ∷ ms) s sent =
    let answer = handle_request h (request_at w i m) s in
    answer_all h w (i + 1) ms answer.1 (send_frame (w.dumps m.id answer.0) ∷ sent)

abbrev pub connected_client : ℕ → ℕ → Bytes → ServerState → List Bytes → Client
connected_client calls served incoming server sent = record {
  calls = calls;
  served = served;
  incoming = incoming;
  server = server;
  sent = sent;
  connected = true;
}

module _ (h : Host) (w : Line) (encode : Message → Bytes) (works : Works w) where
  client_step-send_frame :
      (k i : ℕ) (m : Message) (t : Bytes) (s : ServerState) (sent : List Bytes)
      → Readable w encode m
      → let answer = handle_request h (request_at w i m) s in
        (j : ℕ) × (client_step h w (connected_client k i (send_frame (encode m) ++ t) s sent)
          ≡ connected_client j (i + 1) t answer.1 (send_frame (w.dumps m.id answer.0) ∷ sent))
  unfolding client_step
  client_step-send_frame k i m t s sent readable =
      let frame =
        read_frame-send_frame w.sock (encode m) t k works.delivers readable.not_empty
          readable.small in
      let c = connected_client k i (send_frame (encode m) ++ t) s sent in
      let held = connected_client frame.0 i t s sent in
      (
        frame.0,
        ap (λ x. on_frame h w x c) frame.1
            ∙ ap (λ o. on_message h w o held) readable.loads_encode
            ∙ rw (works.sends_all i) refl,
      )

  -- For a connection that is up, where recv gives at least a byte while bytes are to come, no
  -- sendall fails, and the JSON of each message is read back, not empty and at most 1 MB long: as
  -- many passes of a connection's loop as messages came, however the connection cuts them, leave
  -- the server as it is behind these messages handled once each in their order, with one framed
  -- reply for each of them sent in that order, and what came behind the messages unread.
  pub client_run-answer_all :
      (ms : List Message) (k i : ℕ) (t : Bytes) (s : ServerState) (sent : List Bytes)
      → All (Readable w encode) ms
      → let done = answer_all h w i ms s sent in
        (j : ℕ) × (client_run h w (length ms) (connected_client k i (frames encode ms ++ t) s sent)
          ≡ connected_client j (i + length ms) t done.0 done.1)
  unfolding client_run answer_all frames
  client_run-answer_all [] k i t s sent _ =
      let none_more : i ≡ i + 0 = omega arith in
      (k, ap (λ x. connected_client k x t s sent) none_more)
  client_run-answer_all (m ∷ ms) k i t s sent (readable, others) =
      let step = client_step-send_frame k i m (frames encode ms ++ t) s sent readable in
      let answer = handle_request h (request_at w i m) s in
      let rest =
        client_run-answer_all ms step.0 (i + 1) t answer.1
          (send_frame (w.dumps m.id answer.0) ∷ sent) others in
      let done = answer_all h w i (m ∷ ms) s sent in
      let more : i + 1 + length ms ≡ i + suc (length ms) = omega arith in
      (
        rest.0,
        ap (λ b. client_run h w (suc (length ms)) (connected_client k i b s sent))
              (append_assoc (send_frame (encode m)) (frames encode ms) t)
            ∙ ap (client_run h w (length ms)) step.1
            ∙ rest.1
            ∙ ap (λ x. connected_client rest.0 x t done.0 done.1) more,
      )
