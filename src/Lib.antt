-- ===== src/Lib.antt =====
-- A verification library of the K230 openpilot port: the code that carries CAN messages between
-- the car and the controller, the shared memory between its processes, and the decisions when the
-- controller may steer. Paths are from the repository's root.
-- The processes are k230_pandad, which moves CAN frames between the USB device and two queues,
-- k230_controlsd, which reads the queue, the states of the Panda and of the model and writes
-- steering frames to the other queue, and k230_modeld, k230_overlayd and k230_recordd, which
-- exchange their newest state through channels in shared memory.
-- Base: shared names, Boolean tests, lists, bits, C strings, integers, and Floats, the
-- floating-point operations as an interface that the controller takes as a parameter.
-- Can: src/can_frame.h. Frame has the transport unit and the address table, Signal the two
-- bit-field loops get_signal_le and set_signal_le on a list of eight bytes, Layout a sequence of
-- field writes.
-- Hyundai: src/hyundai_can.cc. Lkas11 has decode_lkas11, create_lkas11_frame and what they call,
-- Torque has apply_hyundai_steer_torque_limits, Mdps12 has create_mdps12_frame, Clu11
-- decode_clu11 and create_clu11_frame, Frames build_lateral_can_frames.
-- Panda: src/panda_can_codec.cc. Codec has panda_can_pack_buffer and panda_can_unpack_buffer with
-- every error; a null pointer is none.
-- Ipc: src/ipc_channels.cc and the messages of src/ipc_messages.h. CanQueue is K230CanQueue on
-- 64-bit counters, a call at a time; CanQueue.Spsc cuts push and pop into loads, copies and
-- stores of two processes. The steps of the two sides come in one order: the acquire and release
-- pairs of the source are taken to give it, and the batches that they hand over are copied
-- between the two. A writer's counter that is about to wrap around 64 bits takes no more steps.
-- LatestChannel is K230LatestChannel, with the four attempts of read, and FrameRing is
-- K230FrameRing, with the eight attempts of a copy. What the loads and the copy of an attempt see
-- is handed over as any values: the source orders the copy of the bytes neither behind the store
-- of the odd number nor in front of the second load, so that nothing is said of the bytes that a
-- copy sees while the writer is at work.
-- Vehicle: src/vehicle_can.cc. Decode has the decoders of the messages, Estimate the cruise that
-- the car does not report, Dispatch update_vehicle_can_state, whose chain of tests of the address
-- is a table of messages, and Read what the controller asks of the state.
-- Cruise: src/adaptive_cruise.cc. Session begins, anchors anew and ends a session, Lead follows
-- the vehicle in front, Buttons paces the presses, Update is the whole update. Its stages read
-- the member variables that the stages before have left.
-- Control: Block is the table of src/control_block.h, Holds is PandaHealthGate of
-- src/control_holds.cc, Path is path_from_model_state of src/lateral_path.cc and PathHoldGate of
-- src/control_holds.cc, Alerts is OverlayAlertEvents of src/overlay_state.cc, Hud the mapping of
-- the messages to the HUD of the same file, Departure is DepartureAlertDetector of
-- src/departure_alert.cc, Engage is the engagement of src/lateral_controller.cc: update up to the
-- steering request that it holds, with the results of the functions that read the clock and the
-- vehicle's state handed over; Steer has the counters of the same file behind the steering
-- request, Actuate the torque that is sent and the whole update, with the torque of the torque
-- controller handed over, and Send the frames and their counter.
-- The two loops of panda_can_unpack_buffer run on fuel: the number of bytes, of which each round
-- takes at least one. The retries of read are the source's four attempts. Every other loop is
-- structural recursion.
-- Not modelled: the torque controller, the planner, the learners and the calibration, which are
-- numerical code; what needs the device (camera, display, encoder, USB, model runtime); opening
-- and mapping shared memory; the drawing, the command line tools and the Python scripts.
pub mod Base
pub mod Can
pub mod Hyundai
pub mod Panda
pub mod Ipc
pub mod Control
pub mod Vehicle
pub mod Cruise
