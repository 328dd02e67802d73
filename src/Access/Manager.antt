-- ===== src/Access/Manager.antt =====
-- access-controller/FactoryDoor_subscriber.py: the node that asks the server about a card and has the
-- door opened. The server, the ROS client library and the log are outside: the n-th call is answered
-- by the site at n.
pub mod Approval
use iot_repo.Base.{
  ℕ, zero, suc, ◌+◌, Bool, true, false, List, [], ◌∷◌, Option, none, some, if◌then◌else◌,
}
use iot_repo.Base.Text.{Bytes}
use iot_repo.Access.{
  Door, boot, uid_str, timer_callback, door_service_callback, rfid_callback_entrance,
  rfid_callback_exit,
}

-- What request_tcp_server returns: None, or an object with its `ok`.
pub data Reply : Type 0 where
  no_reply : Reply
  reply : Bool → Reply

pub data Direction : Type 0 where
  enter leave : Direction

pub record Site : Type 0 where
  pub request_tcp_server : ℕ → Bytes → Direction → Reply
  pub wait_for_service : ℕ → Bool
  pub gpio_get_level : Bool → Bool

-- `alive` is whether spin still runs: an exception of a callback ends it, and with it the program.
pub record RfidAuthManager : Type 0 where
  pub alive : Bool
  pub calls : ℕ

abbrev pub spinning : RfidAuthManager
spinning = record { alive = true; calls = 0 }

-- What a callback leaves, with its call of the service of the door, if any.
abbrev pub Outcome : Type 0
Outcome = RfidAuthManager × Option Bool

-- The door and the node together.
pub record Factory : Type 0 where
  pub door : Door
  pub manager : RfidAuthManager

-- A second of the door's timer, or a card at one of the readers.
pub data FactoryEvent : Type 0 where
  second : FactoryEvent
  card_at : Direction → (ℕ → ℕ) → FactoryEvent

abbrev pub shut_factory : Factory
shut_factory = record { door = boot false; manager = spinning }

-- The door publishes the card on the topic of the reader.
abbrev pub published_at : Direction → (ℕ → ℕ) → Door → Door
published_at enter sn d = rfid_callback_entrance sn d
published_at leave sn d = rfid_callback_exit sn d

abbrev pub served : Option Bool → Door → Door
served none d = d
served (some wanted) d = (door_service_callback wanted d).0

module _ (w : Site) where
  -- The call is made if the service is found.
  unfoldable pub call_door_service : Bool → RfidAuthManager → Outcome
  call_door_service should_open m = (
    record m { calls = m.calls + 1 },
    if w.wait_for_service m.calls then some should_open else none,
  )

  -- The entrance reads the reply before it tests that there is one.
  abbrev pub entrance_reply : Reply → RfidAuthManager → Outcome
  entrance_reply no_reply m = (record m { alive = false }, none)
  entrance_reply (reply true) m = call_door_service true m
  entrance_reply (reply false) m = (m, none)

  abbrev pub exit_reply : Reply → RfidAuthManager → Outcome
  exit_reply no_reply m = (m, none)
  exit_reply (reply true) m = call_door_service true m
  exit_reply (reply false) m = (m, none)

  -- handle_entrance and handle_exit.
  unfoldable pub handle_card : Direction → Bytes → RfidAuthManager → Outcome
  unfolding call_door_service
  handle_card enter uid m =
      entrance_reply (w.request_tcp_server m.calls uid enter) (record m { calls = m.calls + 1 })
  handle_card leave uid m =
      exit_reply (w.request_tcp_server m.calls uid leave) (record m { calls = m.calls + 1 })

  -- A message reaches the node while it spins.
  abbrev pub when_alive : Bool → Direction → Bytes → RfidAuthManager → Outcome
  when_alive true d uid m = handle_card d uid m
  when_alive false d uid m = (m, none)

  unfoldable pub spin_once : Direction → Bytes → RfidAuthManager → Outcome
  unfolding handle_card
  spin_once d uid m = when_alive m.alive d uid m

  unfoldable pub factory_step : FactoryEvent → Factory → Factory
  unfolding spin_once timer_callback rfid_callback_entrance rfid_callback_exit uid_str
  factory_step second f = record f { door = timer_callback w.gpio_get_level true f.door }
  factory_step (card_at d sn) f =
      let outcome = spin_once d (uid_str sn) f.manager in
      record { door = served outcome.1 (published_at d sn f.door); manager = outcome.0 }

  -- The events, the last one first.
  unfoldable pub factory_run : List FactoryEvent → Factory
  unfolding factory_step
  factory_run [] = shut_factory
  factory_run (e ∷ es) = factory_step e (factory_run es)
