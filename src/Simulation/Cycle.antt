-- ===== src/Simulation/Cycle.antt =====
-- `on_activate`, `on_deactivate`, `read` and `write` of franka_mj_hardware_system.cpp.
pub mod Safety
pub mod Delivered
pub mod Obedience
use franka_gazebo.Prelude.{
  ℕ, zero, suc, Bool, true, false, ◌||◌, not, Option, none, some, List, [], ◌∷◌, Name, Map, any,
  map, replicate, if◌then◌else◌,
}
use franka_gazebo.Common.ControlMode.{
  ControlMode, idle, joint_torque, joint_position, joint_velocity, cartesian_velocity,
  cartesian_pose,
}
use franka_gazebo.Common.Double.{Double}
use franka_gazebo.Common.Kinds.{ReturnType, ok, error}
use franka_gazebo.Robot.{RobotState}
use franka_gazebo.Simulation.{Actuators, GripperStates, SimArm, SimArms}
use franka_gazebo.Simulation.Engine.{Engine, store}

module _ {D : Type 0} ⦃d : Double D⦄ where
  abbrev pub sim_activate_arm : SimArm D → SimArm D
  sim_activate_arm a = record a {
    hw_commands_joint_effort = replicate 7 d.nought;
    control_mode = idle;
  }

  unfoldable pub sim_on_activate : SimArms D → SimArms D
  sim_on_activate = map λ p. (p.0, sim_activate_arm p.1)

module _ {D : Type 0} where
  abbrev pub sim_deactivate_arm : SimArm D → SimArm D
  sim_deactivate_arm a = record a { control_mode = idle }

  unfoldable pub sim_on_deactivate : SimArms D → SimArms D
  sim_on_deactivate = map λ p. (p.0, sim_deactivate_arm p.1)

  abbrev pub sim_read_gripper : Engine D → SimArm D → SimArm D
  sim_read_gripper e a =
      if a.has_gripper
      then record a { gripper = record a.gripper { width = e.qpos a.gripper_qpos_idx } }
      else a

  -- `s` is what `populateFrankaState` makes of the engine for this arm.
  unfoldable pub sim_read_arm : RobotState D → Engine D → SimArm D → SimArm D
  sim_read_arm s e a = sim_read_gripper e (record a {
    has_model = true;
    hw_franka_robot_state = s;
    hw_positions = s.q;
    hw_velocities = s.dq;
    hw_efforts = s.tau_j;
  })

  unfoldable pub sim_read : (SimArm D → RobotState D) → Engine D → SimArms D → SimArms D
  sim_read state e = map λ p. (p.0, sim_read_arm (state p.1) e p.1)

  -- One command for each joint, to the actuator that `act` picks.
  abbrev pub put_ctrl : (Actuators → ℕ) → List Actuators → List D → Engine D → Engine D
  put_ctrl act [] cs e = e
  put_ctrl act (j ∷ js) [] e = e
  put_ctrl act (j ∷ js) (c ∷ cs) e = put_ctrl act js cs (record e { ctrl = store (act j) c e.ctrl })

  -- The `switch` on the control mode.
  unfoldable pub put_commands : SimArm D → Engine D → Engine D
  put_commands a e = elim a.control_mode [
    | joint_torque ↦ put_ctrl (λ j. j.trq) a.joints a.hw_commands_joint_effort e
    | joint_position ↦ put_ctrl (λ j. j.pos) a.joints a.hw_commands_joint_position e
    | joint_velocity ↦ put_ctrl (λ j. j.vel) a.joints a.hw_commands_joint_velocity e
    | _ ↦ e
  ]

  unfoldable pub put_gripper : SimArm D → Engine D → Engine D
  put_gripper a e =
      if a.has_gripper then record e { ctrl = store a.gripper_act_idx a.gripper.cmd e.ctrl } else e

module _ {D : Type 0} ⦃d : Double D⦄ where
  abbrev pub sim_has_bad_number : List D → Bool
  sim_has_bad_number = any λ c. not (d.is_finite c)

  unfoldable pub sim_has_bad_command : SimArm D → Bool
  sim_has_bad_command a =
      sim_has_bad_number a.hw_commands_joint_effort
      || sim_has_bad_number a.hw_commands_joint_position
      || sim_has_bad_number a.hw_commands_joint_velocity

  unfoldable pub sim_write : SimArms D → Engine D → Engine D × ReturnType
  sim_write [] e = (e, ok)
  sim_write ((k, a) ∷ arms) e =
      let rest = sim_write arms (put_gripper a (put_commands a e)) in
      if sim_has_bad_command a then (e, error) else rest
