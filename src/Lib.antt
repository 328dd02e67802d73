-- ===== src/Lib.antt =====
-- The firmware of the soy sorting line: soy-controller/esp32-devkit, which drives the conveyor,
-- soy-controller/esp32-cam, which streams pictures to the operator program, access-controller,
-- which reads cards at the factory door and opens it, and register_controller, which reads in the
-- cards of new workers. Of soy-pc, which the operator works with, the part
-- that puts the camera's packets together and the controller of the sorting process
-- are modelled too, and of soy-server, which keeps orders, processes and workers, the requests that
-- come over TCP, and how soy-pc sends them.
--
-- The conveyor has a DC motor, two sorting servos, a lamp and six sensors. MQTT messages on
-- device/control are parsed to commands (src/command.cpp) and handed to the state object that is
-- current (src/fsm/*_state.cpp); each pass of loop() also lets that object look at the sensors. The
-- states share one Context (src/fsm/context.cpp). Events go out on device/sensor and device/status.
-- The camera listens to the same topic, and while it streams it cuts every frame into UDP packets
-- (src/stream/udp_streamer.cpp).
-- soy-pc and the door ask the server over TCP, in frames with their length before them: the operator's
-- program for processes and their counts, the door for the worker of a card. A line of the registration
-- kit goes from the server to every connection.
--
-- Files, with the code they are about (Devkit stands for soy-controller/esp32-devkit, Cam for
-- soy-controller/esp32-cam):
--   Base, Base/*               tests on numbers, int and unsigned words, byte strings, atoi, lists,
--                              dictionaries
--   Board, Board/Constrain     what the conveyor takes from the Arduino core and PubSubClient
--   Devkit/DcMotor             src/motor/dc_motor.cpp            Ramp: duty cycles and slowing down
--   Devkit/ServoMotor          src/motor/servo_motor.cpp         Angle: pulse widths
--   Devkit/RgbLed              src/peripheral/rgb_led.cpp        Blink: the period
--   Devkit/ProximitySensor     src/peripheral/proximity_sensor.cpp
--                                                                Debounce: histories of samples
--   Devkit/Command             src/command.cpp                   Wire: the texts of the commands
--   Devkit/Mqtt                src/net/mqtt_manager.cpp          Connection: retries and messages
--   Devkit/Config              include/config.h
--   Devkit/Machine             src/fsm/context.cpp               Sorters: the reports of S1 to S5
--   Devkit/Transition          Context::transition, onEnter and onExit of the states
--   Devkit/Commands            onCommand of the states           Diagram: the state diagram
--   Devkit/Loops               onLoop of the states              Hold: the motor in CAMERA_HOLD;
--                                                                Arrival: a product before S6
--   Devkit/Main                src/main.cpp                      Invariant, Invariant/*: whole runs
--   Devkit/Protocol            the announcements over MQTT       Words, Runs: a grammar of the log
--   Devkit/Wifi                src/net/wifi_manager.cpp          Waiting: the wait for the network
--   Cam/Udp                    src/stream/udp_streamer.cpp       Chunks: frames put together again
--   Cam/Config                 src/config.h, the configuration in src/stream/camera_capture.cpp
--   Cam/Receiver               soy-pc/features/worker/threads.py Indices, Steps, Pending, Order: the
--                                                                order of arrival; Others, Frames:
--                                                                one frame behind another; Bound:
--                                                                how much is kept
--   Cam/Live                   the camera and that receiver together
--   Cam/Mqtt                   src/net/mqtt_manager.cpp          Settings: CAM:KEY:VALUE
--   Cam/Main                   src/main.cpp, src/stream/camera_capture.cpp
--                                                                Streaming: when, and what is sent
--   Access                     access-controller/app.c           Closing: the door
--   Access/Manager             access-controller/FactoryDoor_subscriber.py
--                                                                Approval: the node with the door
--   Access/Rc522               access-controller/rc522.c         Scan: start-up and the task;
--                                                                Startup, Tags, Calls, Overlap: what
--                                                                they do
--   Register                   register_controller/register_controller.ino
--                                                                Cards: its text and the door's;
--                                                                Running: any number of rounds
--   Operator                   soy-pc/features/worker            Words, Gate: texts, the QR filter;
--                                                                Callbacks, Counting, Transition,
--                                                                States, Page: the controller and
--                                                                what the page and its spin boxes
--                                                                do for it; Heard, Working,
--                                                                Working/*, Running: what every event
--                                                                keeps; Watching, Following,
--                                                                Releasing, Restarting: with the
--                                                                conveyor; Counts, Deciding: bottles;
--                                                                Camera: codes read
--   Server                     soy-server/app                    models/__init__.py, database.py
--   Server/Processes, Orders, Workers
--                              soy-server/app/services, auth.py
--   Server/Handled, Login, Requests
--                              soy-server/app/requests, the routing of pc_bridge.py
--   Server/Frames, Clients, Broadcast
--                              pc_bridge.py: frames, connections, lines of the kit; RoundTrip,
--                              Answers: frames and requests together
--   Server/Running, Totals, Cards, Unique, Sound, Sound/*
--                              what every request keeps of the rows
--   Server/Open, Started, Redelivered
--                              logins, starts and orders; Counted, Door: the server with the
--                              operator's program and with the door
--   Api                        soy-pc/api/client.py              Settled: its requests;
--                                                                Answered, Cards: with the server
--   Devkit/Tests, Cam/Tests, Access/Tests, Register/Tests,
--   Operator/Tests, Server/Tests, Api/Tests
--                              the theorems at concrete inputs
--
-- How the code is modelled. An object is a record of its members and of what its pins, channels and
-- timers were last set to; a method is a function on the record. The state pointer is a StateId, or
-- none for nullptr. The MQTT client is not modelled: the calls of it that the conveyor makes are
-- listed in `effects`. Whatever the firmware reads from outside (clock, pins, connection, messages)
-- is a function of the number of the call, so two readings may differ in any way. An int is an
-- integer; unsigned long, uint32_t and uint16_t wrap around where the code computes in them.
-- Two laws are taken from the Arduino core: that of `constrain`, and that Print prints hexadecimal
-- digits in capitals and without a leading zero. A run is `setup` and any number of passes
-- of `loop`: the recursion is on that number. Three loops run on
-- fuel: the wait for the network and that for the kit's serial port, with `none` for fuel used up, and
-- the reading of bytes from a connection, with `out_of_fuel`; theorems say how much is enough.
--
-- Not modelled: most serial output and delays, which change no state; set-up calls of
-- peripherals; the decoding of pictures; the copies of ArduinoJson and PubSubClient; the other Python
-- programs, the rest of soy-pc with its windows; of the server reports, the web service and the
-- opening of ports. The database is modelled as rows with their
-- keys, unique cards and references: a service that raises leaves it as it was, texts fit their
-- columns, a process has one of the three statuses that the server writes, numbers in the tables are
-- not negative, and requests are served one at a time. JSON, bcrypt, uuid4, str.lower, str.upper, the
-- QSpinBox and what the operator's program finds in config.h are parameters, times of the operator's program are whole milliseconds, and an API call either
-- returns or raises what the code catches. Of access-controller the ROS client and the
-- pins are left out, and start-up and the scanning task run one after the other but
-- in Access/Rc522/Overlap.
pub mod Base
pub mod Board
pub mod Devkit
pub mod Cam
pub mod Access
pub mod Register
pub mod Operator
pub mod Server
pub mod Api
