-- ===== src/Robot/Recovery.antt =====
-- franka_hardware/src/real/franka_error_recovery_service_server.cpp: the service that clears an error
-- and starts the control loop again.
use franka_gazebo.Prelude.{
  Bool, true, false, not, Option, none, some, ◌≡◌, ◌⊎◌, refl, arith, if◌then◌else◌,
}
use franka_gazebo.Common.ControlMode.{
  ControlMode, idle, joint_torque, joint_position, joint_velocity, cartesian_velocity,
  cartesian_pose,
}
use franka_gazebo.Robot.{
  Robot, Loop, joined, running, reading, torque_control, joint_position_control,
  joint_velocity_control, cartesian_velocity_control, cartesian_position_control, Call, done,
  thrown, stop_robot_call, start_loop, set_error, set_default_params, initialize_torque_control,
  initialize_joint_position_control, initialize_joint_velocity_control,
  initialize_cartesian_velocity_control, initialize_cartesian_position_control,
  initialize_continuous_reading,
}
use franka_gazebo.Robot.Invariant.{IsSound, Returns}

abbrev pub is_thrown : Call → Bool
is_thrown done = false
is_thrown thrown = true

-- The loop that carries out a control mode.
abbrev pub loop_of : ControlMode → Loop
loop_of idle = reading
loop_of joint_torque = torque_control
loop_of joint_position = joint_position_control
loop_of joint_velocity = joint_velocity_control
loop_of cartesian_velocity = cartesian_velocity_control
loop_of cartesian_pose = cartesian_position_control

module _ {D : Type 0} where
  -- The loop of a control mode: the ladder of `if`s in the service, which is also that of
  -- `perform_command_mode_switch`.
  unfoldable pub initialize : ControlMode → Robot D → Option (Robot D)
  unfolding initialize_torque_control initialize_joint_position_control
      initialize_joint_velocity_control initialize_cartesian_velocity_control
      initialize_cartesian_position_control initialize_continuous_reading
  initialize idle = initialize_continuous_reading
  initialize joint_torque = initialize_torque_control
  initialize joint_position = initialize_joint_position_control
  initialize joint_velocity = initialize_joint_velocity_control
  initialize cartesian_pose = initialize_cartesian_position_control
  initialize cartesian_velocity = initialize_cartesian_velocity_control

  -- `setDefaultParams`, and the start of the loop. The flag is `response->success`.
  abbrev restart : Call → Robot D → Option (Robot D × Bool)
  restart thrown r = some (r, false)
  restart done r = elim (initialize r.control_mode r) [ none ↦ none | some r' ↦ some (r', true) ]

  abbrev with_params : Call → Robot D → Option (Robot D × Bool)
  with_params params r =
      if r.init_params_set
      then restart done r
      else restart params (elim params [ done ↦ set_default_params r | thrown ↦ r ])

  -- `recovery`, `stop` and `params` are the outcomes of `automaticErrorRecovery`, of the `stop` that
  -- `stopRobot` calls, and of the calls that `setDefaultParams` makes.
  unfoldable pub trigger_automatic_recovery :
      (recovery stop params : Call) → Robot D → Option (Robot D × Bool)
  unfolding initialize set_default_params set_error
  trigger_automatic_recovery recovery stop params r =
      if not r.has_error then some (r, false) else elim recovery [
        | thrown ↦ some (r, false)
        | done ↦ elim (stop_robot_call stop (set_error false r)) [
          | none ↦ none
          | some (r', thrown) ↦ some (r', false)
          | some (r', done) ↦ with_params params r'
        ]
      ]

  pub initialize-eq-start_loop :
      (m : ControlMode) (r : Robot D) → initialize m r ≡ start_loop (loop_of m) r
  unfolding initialize
  initialize-eq-start_loop idle r = refl
  initialize-eq-start_loop _ r = refl

  -- What a recovery leaves behind when libfranka recovers and takes the parameters.
  pub record IsRecovered (m : ControlMode) (x : Robot D × Bool) : Type 0 where
    pub success : x.1 ≡ true
    pub sound : IsSound x.0
    pub cleared : x.0.has_error ≡ false
    pub params : x.0.init_params_set ≡ true
    pub loop : x.0.control_thread ≡ running (loop_of m)

  -- With an error set, a recovery that libfranka carries out ends no process: it clears the error, sets
  -- the default parameters if they were not set, and starts the loop of the robot's own `control_mode_`.
  pub trigger_automatic_recovery-IsRecovered :
      (r : Robot D)
      → IsSound r
      → r.has_error ≡ true
      → Returns (trigger_automatic_recovery done done done r) (IsRecovered r.control_mode)
  unfolding trigger_automatic_recovery
  trigger_automatic_recovery-IsRecovered r v h = ground arith

  -- `stop` has thrown in the recovery: the robot counts as running although its thread was joined, and
  -- `finish_` is still set.
  pub record IsStuck (r : Robot D) : Type 0 where
    pub unstopped : r.stopped ≡ false
    pub thread : r.control_thread ≡ joined
    pub finish : r.finish ≡ true
    pub cleared : r.has_error ≡ false

  -- Whatever libfranka does, the service ends no process. It leaves a sound robot, or one that is stuck, and
  -- that only if `stop` threw.
  pub trigger_automatic_recovery-IsSound :
      (recovery stop params : Call) (r : Robot D)
      → IsSound r
      → Returns
          (trigger_automatic_recovery recovery stop params r)
          (λ x. IsSound x.0 ⊎ ((is_thrown stop ≡ true) × IsStuck x.0))
  unfolding trigger_automatic_recovery
  trigger_automatic_recovery-IsSound thrown stop params r v = ground arith
  trigger_automatic_recovery-IsSound done done params r v = ground arith
  trigger_automatic_recovery-IsSound done thrown params r v = ground arith

  -- A stuck robot has no error left, so a recovery refuses it and changes nothing.
  pub trigger_automatic_recovery-IsStuck :
      (recovery stop params : Call) (r : Robot D)
      → IsStuck r
      → trigger_automatic_recovery recovery stop params r ≡ some (r, false)
  unfolding trigger_automatic_recovery
  trigger_automatic_recovery-IsStuck recovery stop params r v = ground arith
