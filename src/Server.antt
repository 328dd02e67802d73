-- ===== src/Server.antt =====
-- soy-server/app/models and services: the database of the server, with its keys, and what a request is
-- and is answered. The database engine, bcrypt, uuid and str.upper are outside.
pub mod Processes
pub mod Orders
pub mod Workers
pub mod Handled
pub mod Login
pub mod Requests
pub mod Open
pub mod Running
pub mod Totals
pub mod Cards
pub mod Unique
pub mod Sound
pub mod Frames
pub mod Counted
pub mod Started
pub mod Redelivered
pub mod Door
pub mod Clients
pub mod Broadcast
mod Tests
use iot_repo.Base.{ℕ, ◌+◌, Bool, List, [], ◌∷◌, Option, none, some}
use iot_repo.Base.Int.{ℤ}
use iot_repo.Base.Text.{Bytes, codes, bytes_eq}
use iot_repo.Operator.Words.{strip}

-- Texts are lists of code points. Two texts are equal for the database where their collation keys are
-- equal.
pub record Host : Type 0 where
  pub upper : Bytes → Bytes
  pub encode : Bytes → Bytes
  pub collation : Bytes → Bytes
  pub checkpw : Bytes → Bytes → Bool
  pub hashpw : Bytes → ℕ → Bytes

pub data ProcessStatus : Type 0 where
  not_started running paused : ProcessStatus

pub record ProcessRow : Type 0 where
  pub process_id : ℕ
  pub order_id : ℕ
  pub start_time : Option ℕ
  pub end_time : Option ℕ
  pub status : ProcessStatus
  pub total_qty : ℕ
  pub success_1l_qty : ℕ
  pub success_2l_qty : ℕ
  pub unclassified_qty : ℕ

pub record OrderItem : Type 0 where
  pub order_item_id : ℕ
  pub expected_qty : ℕ

pub record OrderRow : Type 0 where
  pub order_id : ℕ
  pub status : Bytes
  pub order_items : List OrderItem

pub record Worker : Type 0 where
  pub worker_id : ℕ
  pub admin_id : ℕ
  pub name : Bytes
  pub card_uid : Bytes

pub record AccessLog : Type 0 where
  pub worker_id : ℕ
  pub direction : Bytes
  pub checked_at : ℕ

-- No hash is the empty text.
pub record Admin : Type 0 where
  pub admin_id : ℕ
  pub password_hash : Bytes

-- Processes, workers and logs stand with the newest first, admins with the first one first. The next
-- keys are those of the columns that count up.
pub record Db : Type 0 where
  pub processes : List ProcessRow
  pub orders : List OrderRow
  pub workers : List Worker
  pub access_logs : List AccessLog
  pub admins : List Admin
  pub next_process_id : ℕ
  pub next_worker_id : ℕ

-- What a service raises, and the error of a reply.
pub data Failure : Type 0 where
  process_not_found process_qty_exceeds_order_total order_not_found already_delivered : Failure
  status_invalid order_item_not_found worker_not_found worker_create_conflict : Failure
  integrity_error no_admin no_admin_registered password_set unknown_action : Failure
  process_id_required order_id_required order_item_id_required status_required : Failure
  card_uid_required admin_id_required worker_id_required no_such_card log_refused : Failure
  password_required wrong_password short_password admin_login_required : Failure

-- A session is committed where its block returns and rolled back where it raises.
pub data Outcome (A : Type 0) : Type 0 where
  returned : A → Db → Outcome A
  raised : Failure → Outcome A

-- The body of a request: its fields are read by name, and each may be missing.
pub record RequestBody : Type 0 where
  pub auth_token : Option Bytes
  pub password : Option Bytes
  pub process_id : Option ℕ
  pub order_id : Option ℕ
  pub order_item_id : Option ℕ
  pub admin_id : Option ℕ
  pub worker_id : Option ℕ
  pub success_1l_qty : Option ℤ
  pub success_2l_qty : Option ℤ
  pub unclassified_qty : Option ℤ
  pub status : Option Bytes
  pub name : Option Bytes
  pub card_uid : Option Bytes
  pub direction : Option Bytes

abbrev pub empty_body : RequestBody
empty_body = record {
  auth_token = none;
  password = none;
  process_id = none;
  order_id = none;
  order_item_id = none;
  admin_id = none;
  worker_id = none;
  success_1l_qty = none;
  success_2l_qty = none;
  unclassified_qty = none;
  status = none;
  name = none;
  card_uid = none;
  direction = none;
}

-- With what the clock, uuid4 and gensalt give while the request is served.
pub record Request : Type 0 where
  pub action : Bytes
  pub body : RequestBody
  pub now : ℕ
  pub uuid4 : Bytes
  pub salt : ℕ

-- The body of a reply. What reports hold is left out.
pub data ReplyBody : Type 0 where
  no_body report : ReplyBody
  token_body : Bytes → ℕ → ReplyBody
  count_body : ℕ → ReplyBody
  needs_password_body : Bool → ReplyBody
  order_body : OrderRow → ReplyBody
  orders_body : List OrderRow → ReplyBody
  order_id_body : ℕ → ReplyBody
  delivered_body : ℕ → ℕ → ReplyBody
  status_body : ℕ → Option ℕ → ReplyBody
  process_body : ProcessRow → ReplyBody
  processes_body : List (ProcessRow × ℕ) → ReplyBody
  first_admin_body : Option ℕ → ReplyBody
  worker_body : Worker → ReplyBody
  workers_body : List Worker → ReplyBody

pub data Reply : Type 0 where
  good : ReplyBody → Reply
  bad : Failure → Reply

pub record ServerState : Type 0 where
  pub db : Db
  pub sessions : List (Bytes × ℕ)

-- `(status or "").strip().upper() == "DELIVERED"`.
abbrev pub is_delivered : Host → Bytes → Bool
is_delivered h status = bytes_eq (h.upper (strip status)) (codes "DELIVERED")
