-- ===== src/Devkit.antt =====
-- The conveyor controller, soy-controller/esp32-devkit.
pub mod DcMotor
pub mod ServoMotor
pub mod RgbLed
pub mod ProximitySensor
pub mod Command
pub mod Mqtt
pub mod Config
pub mod Machine
pub mod Transition
pub mod Commands
pub mod Loops
pub mod Main
pub mod Invariant
pub mod Diagram
pub mod Hold
pub mod Sorters
mod Arrival
pub mod Connection
pub mod Protocol
pub mod Wifi
mod Tests
