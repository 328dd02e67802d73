-- ===== src/Devkit/Config.antt =====
-- config.h: the constants that the program uses. DcMotor.begin takes the channel, and the frequency
-- and the width of the PWM only reach the LEDC unit.
use iot_repo.Base.{ℕ}
use iot_repo.Base.Int.{ℤ, pos}

abbrev pub default_speed : ℤ
default_speed = pos 175

-- config::dc::SOFT_STOP_DURATION_MS
abbrev pub dc_soft_stop_duration_ms : ℕ
dc_soft_stop_duration_ms = 450

abbrev pub sort_deg_a_default : ℤ
sort_deg_a_default = pos 43

abbrev pub sort_deg_b_default : ℤ
sort_deg_b_default = pos 35

abbrev pub servo_min_us : ℤ
servo_min_us = pos 544

abbrev pub servo_max_us : ℤ
servo_max_us = pos 2400

abbrev pub sensor_threshold : ℕ
sensor_threshold = 800

abbrev pub debounce_ms : ℕ
debounce_ms = 50

abbrev pub debounce_s6_ms : ℕ
debounce_s6_ms = 10

abbrev pub debounce_s1_ms : ℕ
debounce_s1_ms = 0

abbrev pub camera_wait_max_ms : ℕ
camera_wait_max_ms = 1000

abbrev pub camera_blank_ms : ℕ
camera_blank_ms = 3000

abbrev pub led_blink_ms : ℕ
led_blink_ms = 500

-- config::timing::SOFT_STOP_DURATION_MS
abbrev pub soft_stop_duration_ms : ℕ
soft_stop_duration_ms = 250

abbrev pub pin_dc_in1 : ℕ
pin_dc_in1 = 27

abbrev pub pin_sort_pos_1l : ℕ
pin_sort_pos_1l = 34

abbrev pub pin_sort_pos_2l : ℕ
pin_sort_pos_2l = 35

abbrev pub pin_sort_confirm_1l : ℕ
pin_sort_confirm_1l = 32

abbrev pub pin_sort_confirm_2l : ℕ
pin_sort_confirm_2l = 33

abbrev pub pin_sort_confirm_uncl : ℕ
pin_sort_confirm_uncl = 36

abbrev pub pin_camera_detect : ℕ
pin_camera_detect = 39

abbrev pub pin_led_r : ℕ
pin_led_r = 25

abbrev pub pin_led_g : ℕ
pin_led_g = 26

abbrev pub pin_led_b : ℕ
pin_led_b = 4

abbrev pub dc_ledc_channel : ℕ
dc_ledc_channel = 0
