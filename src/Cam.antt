-- ===== src/Cam.antt =====
-- The camera, soy-controller/esp32-cam, and the part of soy-pc that receives its packets.
pub mod Config
pub mod Udp
pub mod Receiver
pub mod Mqtt
pub mod Main
pub mod Streaming
pub mod Live
mod Tests
