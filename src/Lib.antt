-- ===== src/Lib.antt =====
-- The DYX 3WD rover's safety cores: a model of the C++ packages that decide when the rover may move,
-- arm and spray. Paths are from the repository's root.
--
-- The parts. The mission node (ros2_ws/src/dyx3_mission) keeps the lifecycle of an execution in a
-- `MissionFsm` and sends the flight controller's requests in the order of a `Px4Sequencer`. The path
-- follower's commands go through the motion guard (ros2_ws/src/dyx3_motion_guard), which forwards
-- them, clamped, only while the safety gates pass and the mission is RUNNING, and else puts out a
-- STOP. The spray package (ros2_ws/src/dyx3_spray) drives the valve with one state machine, and an
-- independent watchdog, fed by a lease, only ever asks for OFF; its controller asks for spray on a
-- marked line while its gates are open, or by hand. The PX4 link (ros2_ws/src/dyx3_px4_link) holds
-- the OFFBOARD session, forwards the setpoints, watches the age of PX4's topics and the agreement on
-- message formats, and numbers the spray commands. The path follower (ros2_ws/src/dyx3_rpp) stops and
-- turns at corners. The RTK service (ros2_ws/src/dyx3_gnss_rtk) cuts correction frames out of the
-- caster's byte stream and injects them into one sink at a time. The recorder
-- (ros2_ws/src/dyx3_recorder) keeps one recording per execution, and the gateway
-- (ros2_ws/src/dyx3_system_gateway) sends the operator events and watches the operator's link.
--
-- Files.
-- - Mission/Fsm: dyx3_mission/{include/dyx3_mission,src}/mission_fsm.{hpp,cpp}. `Types` has the enums and
--   `MissionFsm` the fields; `Ops` and `Interrupts` have one function per method, which returns the
--   machine and the `Result`; `Calls` makes them one step. `Contract` is the transition table of
--   docs/contracts/dyx3_mission.md as an abstract machine; `Log`, `History` and `Safety` are proofs.
-- - Mission/Sequencer: px4_sequencer.{hpp,cpp}. `Ops` has one function per method; `Ownership` and
--   `Release` are proofs.
-- - Guard: dyx3_motion_guard. `Types` is motion_types.hpp, estop_gate and freshness_watchdog.hpp,
--   `Gates` is mission_gate and rtk_gate.hpp, `Limits` is limits, `Stall` is actuator_plausibility, and
--   `Core` is fail_to_zero, with `decide` cut into the parts of its early returns. `Safety`,
--   `Priority`, `Envelope`, `Session` and `Latch` are proofs.
-- - Spray/Fsm: dyx3_spray's spray_fsm. `Ops` is the code, `Tick` a case rule for `tick`, the rest proofs.
-- - Spray/Lease and Spray/Watchdog: safety_lease and watchdog_core. `Ops` is the code; `Safety`, `Proof`
--   and `Epoch` are proofs.
-- - Mission/Journal: point_journal, with `Order` and `Accuracy` as proofs.
-- - Link/Offboard: dyx3_px4_link's offboard_heartbeat. Link/Tokens: spray_ack_tokens, with the state
--   file as the number in it and the outcome of a write as an argument.
-- - Rtk/Frame: dyx3_gnss_rtk's rtcm_parser and validated_frame. One turn of the parser's loop is `look`
--   and `consume`; `Scan`, `Chunks`, `Valid` and `RoundTrip` are proofs.
-- - Mission/Progress: mission_progress. `Reader`, `Record`, `Parse` and `Files` are the code, the text
--   as the list of its bytes and the answers of the operating system as an argument; `Digits`, `Turns`
--   and `RoundTrip` are about what is written, `Atomic` about the file at each moment, `Stored` and
--   `Valid` about what is loaded, and `Points` and `Total` about the ends of the loops.
-- - Spray/Gates: spray_gates. Spray/Params: spray_params with its table, `Names`,
--   `Found`, `Batch`, `Run` and `Whole` the proofs. Spray/Boundary: make_decision
--   of boundary_projection. Spray/Control: spray_controller, its tick cut into its parts in `Tick`, and
--   flow_model in `Flow`; `Opens` and `Latches` are proofs.
-- - Link/Setpoint: rover_setpoint_writer. Link/Topics: dds_session. Link/Handshake:
--   msg_version_handshake. Link/Vehicle: vehicle_state_assembler. In each `Ops` is the code.
-- - Rtk/Transport: the chunks of rtcm_transport and the DDS sink of transport_sink. Rtk/Inject:
--   injection_authority. Rtk/Monitor: correction_health and worker_state.
-- - Recorder/Lifecycle: run_lifecycle. Gateway/Events: event_stream,
--   with `Keys`, `Conserve` and `Account` as proofs; Gateway/Operator: operator_link.
-- - Rpp/Corner: dyx3_rpp's stop_pivot_fsm. `Stop` has the stop confirmation, the pivot watchdog and the
--   hold, `Ops` the corner machine, `Release` the proofs.
-- - Base: shared names, Boolean tests, lists, integers, histories and real numbers. Examples: runs.
--
-- How the code is read. A method is a function from the object's state and its arguments to the new
-- state and what it returns; the calls of one object come one after another. Histories are lists of
-- calls, the latest first. A `double` or `float` is a value of an abstract type with the
-- operations of `Base.Real`, among them comparisons that fail on NaN; a
-- theorem that needs more takes the laws `IsOrdered`, which IEEE 754 gives, as an argument, and the
-- examples use whole thousandths, which satisfy them. The conversion between float and double is the
-- identity. Clock values are natural numbers; uint32 and uint64 counters wrap around (`u32`, `u64`).
-- An observer is the list of the calls made of it, and a reason text of the lease is a value of a data
-- type. What a node measures and passes in is an
-- argument, of which nothing is assumed.
--
-- Bounds. The loops over lists (the log that is trimmed to 256 entries, the flights, the vertices) are
-- structural. The parser's loop takes fuel: the length of its buffer, which is enough, since every
-- turn but the last consumes a byte. The recursion of `step_toward` on the negated speed is one deep
-- and is written out. The reader of the progress record takes nine turns for its eight keys, since a
-- turn sets a key that had no value, and for the points one turn more than the text has bytes, since a
-- turn takes a byte. Ten decimal digits are enough for 32 bits. The loop that writes a file takes the
-- list of the system's answers; when it is at its end the write is still awaited.
--
-- Not modelled: the nodes (ROS 2 wiring), sockets and serial ports, the NTRIP client and the serial
-- sink, the files of recordings, JSON and the gateway's validator of commands, the path follower's
-- guidance, path files and their placement, and the Python backend; nor the functions that only name
-- values in texts. The projection on a path and the place of the nozzle are floating-point geometry
-- and an argument of the spray controller, of which nothing is assumed; its parameters are read into a
-- record, `Settings`, at each call.
pub mod Base
pub mod Mission
pub mod Spray
pub mod Guard
pub mod Link
pub mod Rtk
pub mod Rpp
pub mod Recorder
pub mod Gateway
pub mod Examples
