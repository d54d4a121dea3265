-- ===== src/Tests/Simulated.antt =====
-- The theorems on franka_mj_hardware_system.cpp at two simulated arms.
use franka_gazebo.Prelude.{
  ◌≡◌, refl, arith, ℕ, ◌+◌, Bool, true, false, some, List, [], ◌∷◌, Name, codes, Both, map,
  replicate, contains,
}
use franka_gazebo.Common.ControlMode.{ControlMode, idle, joint_position}
use franka_gazebo.Common.Double.{Sample, sample_double}
use franka_gazebo.Common.Names.{check_command_mode_type, all_of_element_has_string, starts_with}
use franka_gazebo.Common.Kinds.{ok, kinds_of}
use franka_gazebo.Hardware.Loop.{for_arms}
use franka_gazebo.Hardware.Init.{JointInfo, HardwareInfo, to_string}
use franka_gazebo.Hardware.Prepare.Switch.{AtArm}
use franka_gazebo.Simulation.{Actuators, SimArm, SimArms}
use franka_gazebo.Simulation.Engine.{Gains, Engine, perform_command_mode_switch}
use franka_gazebo.Simulation.Engine.Driven.{Distinct, all_numbers}
use franka_gazebo.Simulation.Engine.Switched.{IsServoed, perform_command_mode_switch-IsServoed}
use franka_gazebo.Simulation.Prepare.{
  sim_interfaces_of, sim_stop_arm, sim_start_arm, sim_prepare_command_mode_switch,
}
use franka_gazebo.Simulation.Prepare.Switch.{
  IsSimSwitched, sim_prepare_command_mode_switch-IsSimSwitched,
}
use franka_gazebo.Simulation.Cycle.{
  sim_on_activate, sim_on_deactivate, sim_read, sim_read_arm, sim_write,
}
use franka_gazebo.Simulation.Cycle.Safety.{sim_write-sim_on_deactivate}
use franka_gazebo.Simulation.Delivery.{Acts, sim_prepare-perform-Acts}
use franka_gazebo.Simulation.Cycle.{sim_has_bad_command}
use franka_gazebo.Simulation.Init.{
  Indices, SimOutside, sim_container, sim_is_valid_joint, put_positions, set_up_engine,
  init_sim_arms, init_sim,
}
use franka_gazebo.Simulation.Engine.{store, set_joints, set_joint}
use franka_gazebo.Tests.{nil, rest, seven}

instance abbrev pub sample_gains : Gains Sample
sample_gains = record { one = some 1; ten = some 10; hundred = some 100; negate = λ x. x }

abbrev pub engine : Engine Sample
engine = record {
  actuator_gainprm = λ n. nil;
  actuator_biasprm = λ n. nil;
  ctrl = λ n. nil;
  qpos = λ n. nil;
}

abbrev joint_at : ℕ → Actuators
joint_at n = record { trq = n; pos = n + 1; vel = n + 2 }

abbrev sim_arm : Name → List Actuators → ControlMode → Bool → SimArm Sample
sim_arm name js m marked = record {
  robot_name = name;
  joints = js;
  has_gripper = false;
  gripper_act_idx = 50;
  gripper_qpos_idx = 50;
  gripper = record { cmd = nil; width = nil; force = nil };
  hw_franka_robot_state = rest;
  hw_commands_joint_effort = replicate 7 (some 3);
  hw_commands_joint_position = replicate 7 (some 4);
  hw_commands_joint_velocity = replicate 7 (some 5);
  control_mode = m;
  hw_positions = replicate 7 nil;
  hw_velocities = replicate 7 nil;
  hw_efforts = replicate 7 nil;
  switch_cm = marked;
  has_model = true;
}

-- Two arms of one joint each.
abbrev arms : SimArms Sample
arms =
    (codes "left", sim_arm (codes "left") (joint_at 0 ∷ []) joint_position true)
    ∷ (codes "right", sim_arm (codes "right") (joint_at 3 ∷ []) idle false)
    ∷ []

arms-Distinct : Distinct (all_numbers arms)
arms-Distinct = ground arith

perform_command_mode_switch-IsServoed_example :
    Both
      (λ p q. (q.0 ≡ p.0) × IsServoed engine (perform_command_mode_switch arms engine).1 p.1 q.1)
      arms
      (perform_command_mode_switch arms engine).0
perform_command_mode_switch-IsServoed_example =
    perform_command_mode_switch-IsServoed arms engine arms-Distinct

abbrev start : List Name
start = seven (codes "right") (codes "velocity")

abbrev stop : List Name
stop = seven (codes "left") (codes "position")

is_accepted : (sim_prepare_command_mode_switch start stop arms).1 ≡ ok
unfolding sim_prepare_command_mode_switch for_arms sim_stop_arm sim_start_arm sim_interfaces_of
    starts_with check_command_mode_type all_of_element_has_string contains kinds_of
is_accepted = refl

sim_prepare_command_mode_switch-IsSimSwitched_example :
    Both (AtArm (IsSimSwitched start stop)) arms (sim_prepare_command_mode_switch start stop arms).0
sim_prepare_command_mode_switch-IsSimSwitched_example =
    sim_prepare_command_mode_switch-IsSimSwitched start stop arms is_accepted

sim_prepare-perform-Acts_example :
    Both
      (AtArm (
        Acts start
          (perform_command_mode_switch
            (sim_prepare_command_mode_switch start stop arms).0
            engine).1))
      arms
      (perform_command_mode_switch (sim_prepare_command_mode_switch start stop arms).0 engine).0
sim_prepare-perform-Acts_example =
    sim_prepare-perform-Acts start stop arms engine arms-Distinct is_accepted

sim_write-sim_on_deactivate_example : (sim_write (sim_on_deactivate arms) engine).0 ≡ engine
sim_write-sim_on_deactivate_example = sim_write-sim_on_deactivate arms engine (refl, (refl, tt))

is_written : (sim_write arms engine).1 ≡ ok
unfolding sim_write sim_has_bad_command
is_written = refl

abbrev pub joint_info : JointInfo
joint_info = record {
  name = codes "left_joint1";
  command_interfaces = codes "effort" ∷ codes "position" ∷ codes "velocity" ∷ [];
  state_interfaces = codes "effort" ∷ codes "position" ∷ codes "velocity" ∷ [];
}

abbrev info : HardwareInfo
info = record {
  joints = replicate 7 joint_info;
  hardware_parameters = (codes "ns_1", codes "left") ∷ (codes "hand_1", codes "True") ∷ [];
}

abbrev indices : Indices
indices = record {
  joints = joint_at 0 ∷ [];
  joint_qpos = 9 ∷ [];
  gripper_act_idx = 50;
  gripper_qpos_idx = 50;
}

abbrev outside : SimOutside Sample
outside = record {
  populate_indices = λ name has_gripper. some indices;
  initial_position = λ j. some (some 7);
  open_state = rest;
}

-- The engine with the actuators off and the joint in its place.
abbrev engine_after : Engine Sample
engine_after = record (set_joint false nil nil (joint_at 0) engine) {
  qpos = λ n. store 9 (some 7) (λ m. nil) n;
}

abbrev new_arms : SimArms Sample
new_arms = (codes "left", sim_container outside (codes "left") true indices) ∷ []

is_set_up : init_sim outside 1 info engine ≡ some (new_arms, engine_after)
unfolding init_sim init_sim_arms set_up_engine put_positions set_joints sim_is_valid_joint to_string
is_set_up = refl

-- Activation puts the efforts to 0, and `read` shows the state of the engine.
shown :
    map (λ p. p.1.hw_efforts) (sim_read (λ a. rest) engine (sim_on_activate arms))
    ≡ replicate 7 (some 2) ∷ replicate 7 (some 2) ∷ []
unfolding sim_read sim_read_arm sim_on_activate
shown = refl
