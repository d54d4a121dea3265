-- ===== src/Lib.antt =====
-- A verification library of franka_gazebo: a ros2_control stack for one or more Franka arms, real
-- or simulated by MuJoCo, with a controller that switches between controllers for one arm or
-- several.
--
-- The parts of the program and how they interact. ros2_control loads one of two systems: the class
-- `FrankaMultiHardwareInterface` for real arms or `FrankaMjHardwareSystem` for simulated ones. Each
-- keeps a map from the names of the arms to containers. Controllers claim command interfaces by
-- name; a switch of controllers goes through `prepare_command_mode_switch`, which checks the
-- request and marks arms, and `perform_command_mode_switch`, which acts on the marked arms. In each
-- cycle `read` fills the state interfaces and `write` hands the commands on. A real arm has a
-- `Robot` with a thread that runs one of libfranka's loops; a service recovers it from errors.
-- `MultiModeController` is a controller that owns others and writes the torques of all arms; a
-- service replaces its set of active controllers. A node of its own serves the gripper, and motion
-- generators turn the goals of actions into targets of the controllers.
--
-- Which file models which part (paths from the repository's root):
--   * Common: franka_hardware/src/common. ControlMode is control_mode.h and control_mode.cpp;
--     Names is helper_functions.cpp; Kinds holds the tests on interface names that both systems
--     make; Double says what the sources need of a floating-point number.
--   * Robot: franka_hardware/src/real/robot.cpp and its header (Robot, with the callbacks in
--     Robot/Loops and the invariant in Robot/Invariant), and
--     franka_error_recovery_service_server.cpp (Robot/Recovery), and
--     franka_param_service_server.cpp with the setters that it calls (Robot/Parameters).
--     Robot/Steps interleaves calls of the methods and rounds of the thread.
--   * Hardware: franka_hardware/src/real/franka_multi_hardware_interface.cpp, with `on_init` in
--     Init, the exports of interfaces in Export, both halves of a switch in Prepare and Perform,
--     the rest of the life cycle, `read` and `write` in Cycle. Delivery follows a request to
--     switch through to the loop that runs.
--   * Simulation: franka_hardware/src/sim/franka_mj_hardware_system.cpp, with `initSim` in Init,
--     the exports in Export, the switch in Prepare and Engine, and the rest in Cycle; Delivery
--     joins both halves of the switch. Definitions that the real system has under the same name
--     begin with `sim_`. RobotSim is franka_hardware/src/sim/robot_sim.cpp, and ModelSim the
--     header model_sim.hpp in franka_hardware/include/franka_hardware/sim.
--   * MultiMode:
--     franka_multi_mode_controller/multi_mode_controller_impl/src/multi_mode_controller.cpp and
--     multi_mode_controller/include/multi_mode_controller/utils/conversions.h: the names of
--     resources in Resources, the control sets and the services in ControlSet, `update` in
--     Torques, the configuration in Setup; Steps interleaves requests and cycles.
--   * ControllerBase:
--     multi_mode_controller/include/multi_mode_controller/base/panda_controller_base.h and
--     utils/buffered.h beside it, in franka_multi_mode_controller: what the controllers that
--     MultiModeController owns share, up to the torques; ControllerBase/Ros has the topics and
--     callbacks of panda_controller_ros_interface.h beside it.
--   * Gripper: franka_gripper/src/gripper_action_server.cpp and its header, with what a goal's
--     thread sees in each round of its loop as data.
--   * SimGripper: franka_hardware/src/sim/gripper_sim_action_server.cpp and its header: the loops
--     that move the simulated fingers; SimGripper/Server runs them step by step beside
--     cancellations, stops and new goals, SimGripper/Goals has the goals' threads.
--   * Motion: panda_motion_generators/include/panda_motion_generators/base in
--     franka_multi_mode_controller: motion_generator_base.h, with the action server of
--     motion_generator_ros_interface.h in Motion/Server and the joint motions of
--     poly_c2_joint_motion_generator.h and poly_c2_joint_motion_generator_base.h in
--     Motion/Joints.
--   * Garmi: garmi_packages/garmi_controllers, the controllers of a head and a mobile base that
--     carry the arms: head_controller.cpp in Head and mobile_base_controller.cpp in Base, with
--     their headers.
--   * StateMessage: franka_semantic_components/src/franka_robot_state.cpp in Component, and in
--     Utility multi_mode_controller/include/multi_mode_controller/utils/get_robot_state_msg.h of
--     franka_multi_mode_controller; both make the message that describes a robot's state.
--   * RobotModel: franka_semantic_components/src/franka_robot_model.cpp with its header, and
--     franka_hardware/include/franka_hardware/common/model_base.hpp; Data is
--     multi_mode_controller/src/robot_data.cpp in franka_multi_mode_controller.
--   * Prelude is shared by all; Tests holds concrete inputs.
--
-- How the code corresponds to the definitions. A struct is a record with the same fields (less the
-- final underscore), an enumeration a data type, a `std::map` an association list in the order of
-- the keys, a string a list of character codes, an array a list. A method that changes its object
-- returns the new state. A method that may throw, fail an assertion or end the process returns an
-- Option; one with a result code returns it beside the state. A pointer into an array of an arm is
-- the index of the arm.
--
-- What is outside and hence an argument: libfranka (what a connection, `readOnce` and each callback
-- report), MuJoCo (the numbers of named objects, its arrays and the functions on poses and
-- matrices), the parameters of the nodes, the factory of controllers, and the torques that
-- controllers compute. The model of `Robot` covers the exceptions that the code catches, the one of
-- libfranka's `stop` in a recovery among them; any other ends the process. A `double` is any type with a 0 and a test `is_finite` that 0 passes; the
-- grippers, the head and the base also compare it and compute with it.
--
-- Bounds and fuel: a resource of n characters is split with n + 1 rounds of fuel, since each round
-- takes at least one character; `std::to_string` writes digits with n + 1 rounds, of which each
-- takes a digit. The loop of a gripper's goal is recursion on the rounds that are given, and the
-- loops of homing are recursion on the values of the flag that they read, with a count of the steps
-- that is enough. The loop that replaces the "&" of a resource takes one away in each round, so the
-- length of the resource and one more are enough. A sequence of a controller's cycles fails where
-- its count passes an `int` of 32 bits. The joint numbers, indices and masks are natural numbers,
-- and differences that the code computes in `int` are integers. Loops over arms, interfaces and
-- joints are recursion on the list.
--
-- Not modelled: logging and time measurements, the executor that spins the services, the set-up of
-- the servers and their messages, forces and polynomials in floating point, the concrete
-- controllers, and the Cartesian motion generator. Where mutexes join what a method or callback
-- does, it is one step; a round of a simulated gripper's loop and its stop, which no mutex joins, are
-- two. The last round of a control thread that `stopRobot` waits for counts as a round before that
-- call. `read` waits for it with the mutex that a callback needs, so a read that joins a running loop
-- gives no result.
pub mod Prelude
pub mod Common
pub mod Robot
pub mod Hardware
pub mod Simulation
pub mod Gripper
pub mod MultiMode
pub mod ControllerBase
pub mod SimGripper
pub mod Motion
pub mod Garmi
pub mod StateMessage
pub mod RobotModel
pub mod Tests
