-- ===== src/Simulation/Engine.antt =====
-- The arrays of MuJoCo's model and data that franka_mj_hardware_system.cpp writes, its functions
-- `set_torque_control`, `set_position_servo` and `set_velocity_servo`, and `perform_command_mode_switch`.
pub mod Driven
pub mod Switched
use franka_gazebo.Prelude.{
  ℕ, zero, suc, ◌+◌, ◌*◌, Bool, true, false, List, [], ◌∷◌, ◌==◌, if◌then◌else◌, Name,
}
use franka_gazebo.Common.ControlMode.{
  ControlMode, idle, joint_torque, joint_position, joint_velocity, cartesian_velocity,
  cartesian_pose,
}
use franka_gazebo.Common.Double.{Double}
use franka_gazebo.Simulation.{Actuators, SimArm, SimArms}

-- The constants of the actuators, and the sign.
pub record Gains (D : Type 0) : Type 0 where
  pub one : D
  pub ten : D
  pub hundred : D
  pub negate : D → D

pub record Engine (D : Type 0) : Type 0 where
  pub actuator_gainprm : ℕ → D
  pub actuator_biasprm : ℕ → D
  pub ctrl : ℕ → D
  pub qpos : ℕ → D

-- `array[i] = v`.
abbrev pub store {ℓ} : {A : Type ℓ} → ℕ → A → (ℕ → A) → ℕ → A
store i v f j = if j == i then v else f j

module _ {D : Type 0} ⦃d : Double D⦄ ⦃g : Gains D⦄ where
  unfoldable pub set_torque_control : ℕ → Bool → Engine D → Engine D
  set_torque_control n flag e = record e {
    actuator_gainprm = store (10 * n + 0) (if flag then g.one else d.nought) e.actuator_gainprm;
  }

  unfoldable pub set_position_servo : ℕ → D → Engine D → Engine D
  set_position_servo n kp e = record e {
    actuator_gainprm = store (10 * n + 0) kp e.actuator_gainprm;
    actuator_biasprm = store (10 * n + 1) (g.negate kp) e.actuator_biasprm;
  }

  unfoldable pub set_velocity_servo : ℕ → D → Engine D → Engine D
  set_velocity_servo n kv e = record e {
    actuator_gainprm = store (10 * n + 0) kv e.actuator_gainprm;
    actuator_biasprm = store (10 * n + 2) (g.negate kv) e.actuator_biasprm;
  }

  -- The body of the loops over the joints.
  unfoldable pub set_joint : Bool → D → D → Actuators → Engine D → Engine D
  unfolding set_torque_control set_position_servo set_velocity_servo
  set_joint flag kp kv j e =
      set_velocity_servo j.vel kv (set_position_servo j.pos kp (set_torque_control j.trq flag e))

  unfoldable pub set_joints : Bool → D → D → List Actuators → Engine D → Engine D
  unfolding set_joint
  set_joints flag kp kv [] e = e
  set_joints flag kp kv (j ∷ js) e = set_joints flag kp kv js (set_joint flag kp kv j e)

  -- The ladder of `if`s; a Cartesian mode sets nothing.
  unfoldable pub drive : ControlMode → List Actuators → Engine D → Engine D
  unfolding set_joints
  drive idle js e = set_joints false d.nought d.nought js e
  drive joint_torque js e = set_joints true d.nought d.nought js e
  drive joint_position js e = set_joints false g.hundred d.nought js e
  drive joint_velocity js e = set_joints false d.nought g.ten js e
  drive cartesian_velocity js e = e
  drive cartesian_pose js e = e

  abbrev pub perform_arm : SimArm D → Engine D → SimArm D × Engine D
  perform_arm a e =
      if a.switch_cm
      then (record a { switch_cm = false }, drive a.control_mode a.joints e)
      else (a, e)

  unfoldable pub perform_command_mode_switch : SimArms D → Engine D → SimArms D × Engine D
  unfolding drive
  perform_command_mode_switch [] e = ([], e)
  perform_command_mode_switch ((k, a) ∷ arms) e =
      let (a', e1) = perform_arm a e in
      let (arms', e2) = perform_command_mode_switch arms e1 in ((k, a') ∷ arms', e2)
