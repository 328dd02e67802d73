-- ===== src/Api/Answered.antt =====
-- A request of the operator's program from the call to its result: over the connection to the server,
-- through its handlers, and back.
use iot_repo.Base.{ℕ, ◌+◌, ◌≤◌, ◌<◌, ◌≡◌, ◌∙◌, ap, true, [], ◌∷◌, ◌++◌, Option, some, length, arith}
use iot_repo.Base.Text.{Bytes}
use iot_repo.Server.{Host, RequestBody, Reply, ServerState}
use iot_repo.Server.Requests.{handle_request}
use iot_repo.Server.Frames.{Socket, max_frame_payload, send_frame, read_frame}
use iot_repo.Server.Frames.RoundTrip.{Delivers, read_frame-send_frame}
use iot_repo.Server.Clients.{Message, Line, Client, request_at, client_run}
use iot_repo.Server.Clients.Answers.{
  Works, Readable, frames, answer_all, connected_client, client_run-answer_all,
}
use iot_repo.Api.{
  replied, Incoming, response, Api, is_pending, request, receive, take_message, reader_pass,
}

-- The JSON of a reply is read back and fits a frame.
pub record ReplyReadable (w : Line) (loads : Bytes → Option Incoming) (rid : ℕ) (r : Reply)
    : Type 0 where
  pub loads_dumps : loads (w.dumps rid r) ≡ some (response rid r)
  pub not_empty : 0 < length (w.dumps rid r)
  pub small : length (w.dumps rid r) ≤ max_frame_payload

-- What _request sends: the next id with the action and the body.
abbrev pub next_message : Api → Bytes → RequestBody → Message
next_message a action body = record { id = a.request_id + 1; action = action; body = body }

-- The answer to the id just given out is its result.
receive-request :
    (a : Api) (r : Reply)
    → (receive (response (a.request_id + 1) r) (request true a)).results
      ≡ (a.request_id + 1, replied r) ∷ a.results
unfolding receive request is_pending
receive-request a r = ground arith

module _ (h : Host) (w : Line) (encode : Message → Bytes) (works : Works w) (v : Socket)
    (delivers : Delivers v) (loads : Bytes → Option Incoming) where
  reader_pass-send_frame :
      (a : Api) (r : Reply) (n : ℕ) (u : Bytes)
      → ReplyReadable w loads (a.request_id + 1) r
      → (reader_pass loads
          (read_frame v n (send_frame (w.dumps (a.request_id + 1) r) ++ u))
          (request true a)).results
        ≡ (a.request_id + 1, replied r) ∷ a.results
  unfolding reader_pass
  reader_pass-send_frame a r n u readable =
      let rid = a.request_id + 1 in
      let frame =
        read_frame-send_frame v (w.dumps rid r) u n delivers readable.not_empty readable.small in
      ap (λ x. (reader_pass loads x (request true a)).results) frame.1
      ∙ ap (λ o. (take_message o (request true a)).results) readable.loads_dumps
      ∙ receive-request a r

  -- Where both connections give at least a byte while bytes are to come, no sendall fails, and the
  -- JSON of the request and of its reply is read back, not empty and at most 1 MB long: a request
  -- of the operator's program, however the connections cut the bytes and whatever follows them, has
  -- the server in the state behind that request handled once, which sends one frame; and that frame
  -- gives the request, under its id, the answer of the server's handlers as its result.
  pub request_answered :
      (a : Api) (action : Bytes) (body : RequestBody) (k i n : ℕ) (t u : Bytes) (s : ServerState)
      → Readable w encode (next_message a action body)
      → ReplyReadable w loads
          (a.request_id + 1)
          (handle_request h (request_at w i (next_message a action body)) s).0
      → let m = next_message a action body in
        let answer = handle_request h (request_at w i m) s in
        let served = client_run h w 1 (connected_client k i (frames encode (m ∷ []) ++ t) s []) in
        (frame : Bytes) × ((served.sent ≡ frame ∷ [])
          × ((served.server ≡ answer.1)
              × ((reader_pass loads (read_frame v n (frame ++ u)) (request true a)).results
                  ≡ (m.id, replied answer.0) ∷ a.results)))
  unfolding answer_all
  request_answered a action body k i n t u s readable reply_readable =
      let m = next_message a action body in
      let answer = handle_request h (request_at w i m) s in
      let done = client_run-answer_all h w encode works (m ∷ []) k i t s [] (readable, tt) in
      (
        send_frame (w.dumps m.id answer.0),
        (
          ap (λ (c : Client). c.sent) done.1,
          (
            ap (λ (c : Client). c.server) done.1,
            reader_pass-send_frame a answer.0 n u reply_readable,
          ),
        ),
      )
