-- ===== src/Server/Clients.antt =====
-- soy-server/app/pc_bridge.py, _handle_client: the requests of one connection. JSON is outside, and so
-- are the socket, the clock, uuid4 and gensalt, which are read by the number of the request.
pub mod Answers
use iot_repo.Base.{
  ℕ, zero, suc, ◌+◌, Bool, true, false, List, [], ◌∷◌, Option, none, some, if◌then◌else◌,
}
use iot_repo.Base.Text.{Bytes}
use iot_repo.Server.{Host, RequestBody, Request, Reply, ServerState}
use iot_repo.Server.Requests.{handle_request}
use iot_repo.Server.Frames.{Socket, Received, got, lost, out_of_fuel, send_frame, read_frame}

pub record Message : Type 0 where
  pub id : ℕ
  pub action : Bytes
  pub body : RequestBody

-- `loads` gives none for what is not JSON or not a request; `sends` is whether sendall succeeds.
pub record Line : Type 0 where
  pub sock : Socket
  pub loads : Bytes → Option Message
  pub dumps : ℕ → Reply → Bytes
  pub sends : ℕ → Bool
  pub clock : ℕ → ℕ
  pub uuid4 : ℕ → Bytes
  pub salt : ℕ → ℕ

-- `incoming` is what the client sends and the server has not read; `sent` what the server has sent,
-- the last frame first; `calls` and `served` count the calls of recv and the requests.
pub record Client : Type 0 where
  pub calls : ℕ
  pub served : ℕ
  pub incoming : Bytes
  pub server : ServerState
  pub sent : List Bytes
  pub connected : Bool

abbrev pub request_at : Line → ℕ → Message → Request
request_at w i m = record {
  action = m.action;
  body = m.body;
  now = w.clock i;
  uuid4 = w.uuid4 i;
  salt = w.salt i;
}

module _ (h : Host) (w : Line) where
  -- What is no request is passed over.
  abbrev pub on_message : Option Message → Client → Client
  on_message none c = c
  on_message (some m) c =
      let answer = handle_request h (request_at w c.served m) c.server in
      record c {
        served = c.served + 1;
        server = answer.1;
        sent = if w.sends c.served then send_frame (w.dumps m.id answer.0) ∷ c.sent else c.sent;
        connected = w.sends c.served;
      }

  abbrev pub on_frame : Received → Client → Client
  on_frame (got payload rest k) c =
      on_message (w.loads payload) (record c { calls = k; incoming = rest })
  on_frame lost c = record c { connected = false }
  on_frame out_of_fuel c = record c { connected = false }

  -- One pass of the loop of _handle_client.
  unfoldable pub client_step : Client → Client
  unfolding read_frame send_frame handle_request
  client_step c = if c.connected then on_frame (read_frame w.sock c.calls c.incoming) c else c

  unfoldable pub client_run : ℕ → Client → Client
  unfolding client_step
  client_run zero c = c
  client_run (suc n) c = client_run n (client_step c)
