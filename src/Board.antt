-- ===== src/Board.antt =====
-- What the conveyor firmware takes from code outside this repository: the Arduino core (millis,
-- digitalRead, analogRead, constrain) and the PubSubClient library. Every such call of a run has a
-- number, and the board answers the call by its number, so two readings in one pass may differ.
pub mod Constrain
use iot_repo.Base.{ℕ, ◌≡◌, Bool, List, if◌then◌else◌}
use iot_repo.Base.Int.{ℤ, ltb_ℤ}
use iot_repo.Base.Text.{Bytes}

-- A message that the MQTT client hands to its callback: topic and payload.
pub record Message : Type 0 where
  pub topic : Bytes
  pub payload : Bytes

pub record Board : Type 0 where
  -- milliseconds since boot, an unsigned long
  pub millis : ℕ → ℕ
  -- the level of a pin, 1 for HIGH and 0 for LOW
  pub digital_read : ℤ → ℕ → ℕ
  pub analog_read : ℤ → ℕ → ℕ
  -- PubSubClient::connected(), connect(clientId) and the messages that one loop() delivers
  pub mqtt_connected : ℕ → Bool
  pub mqtt_connect : ℕ → Bool
  pub mqtt_loop : ℕ → List Message
  pub constrain : ℤ → ℤ → ℤ → ℤ
  -- the Arduino reference: a below a, b above b, and x itself between
  pub constrain_lem :
      (x lo hi : ℤ) → constrain x lo hi ≡ (if ltb_ℤ x lo then lo else if ltb_ℤ hi x then hi else x)
