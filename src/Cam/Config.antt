-- ===== src/Cam/Config.antt =====
-- config.h of the camera, and the configuration that stream/camera_capture.cpp hands to the camera
-- driver. The driver's own constants go by their names.
use iot_repo.Base.{ℕ}
use iot_repo.Base.Int.{ℤ, pos, negsuc}

-- The constants of esp_camera.h and of the LEDC driver that the source names.
pub data DriverConstant : Type 0 where
  ledc_channel_0 ledc_timer_0 pixformat_jpeg camera_grab_latest camera_fb_in_psram framesize_qvga :
      DriverConstant

pub record CameraConfig : Type 0 where
  pub ledc_channel : DriverConstant
  pub ledc_timer : DriverConstant
  pub pin_d0 : ℤ
  pub pin_d1 : ℤ
  pub pin_d2 : ℤ
  pub pin_d3 : ℤ
  pub pin_d4 : ℤ
  pub pin_d5 : ℤ
  pub pin_d6 : ℤ
  pub pin_d7 : ℤ
  pub pin_xclk : ℤ
  pub pin_pclk : ℤ
  pub pin_vsync : ℤ
  pub pin_href : ℤ
  pub pin_sccb_sda : ℤ
  pub pin_sccb_scl : ℤ
  pub pin_pwdn : ℤ
  pub pin_reset : ℤ
  pub xclk_freq_hz : ℕ
  pub pixel_format : DriverConstant
  pub grab_mode : DriverConstant
  pub fb_location : DriverConstant
  pub frame_size : DriverConstant
  pub jpeg_quality : ℕ
  pub fb_count : ℕ

-- The pins in the order of the header: Y2 to Y9, XCLK, PCLK, VSYNC, HREF, SIOD, SIOC, PWDN, RESET.
abbrev pub camera_cfg : CameraConfig
camera_cfg = record {
  ledc_channel = ledc_channel_0;
  ledc_timer = ledc_timer_0;
  pin_d0 = pos 5;
  pin_d1 = pos 18;
  pin_d2 = pos 19;
  pin_d3 = pos 21;
  pin_d4 = pos 36;
  pin_d5 = pos 39;
  pin_d6 = pos 34;
  pin_d7 = pos 35;
  pin_xclk = pos 0;
  pin_pclk = pos 22;
  pin_vsync = pos 25;
  pin_href = pos 23;
  pin_sccb_sda = pos 26;
  pin_sccb_scl = pos 27;
  pin_pwdn = pos 32;
  pin_reset = negsuc 0;
  xclk_freq_hz = 20000000;
  pixel_format = pixformat_jpeg;
  grab_mode = camera_grab_latest;
  fb_location = camera_fb_in_psram;
  frame_size = framesize_qvga;
  jpeg_quality = 12;
  fb_count = 2;
}

abbrev pub udp_port : ℕ
udp_port = 8021

abbrev pub frame_interval_ms : ℕ
frame_interval_ms = 80
