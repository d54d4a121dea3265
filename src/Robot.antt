-- ===== src/Robot.antt =====
-- franka_hardware/src/real/robot.cpp and include/franka_hardware/real/robot.hpp: the class `Robot`,
-- which owns the connection to one arm and the thread that runs a control or reading loop on it.
--
-- A method that can end the process (a failed `assert`, a call through a null pointer, `join` of a
-- thread that is not joinable, or the destruction of a joinable `std::thread`) returns `none` there.
-- It also does where it may never come back: `read` keeps `read_mutex_`, which every callback locks, while
-- it waits for the thread.
-- libfranka is not part of the repository: the outcome of each call of it is an argument. The mutexes
-- serialise the accesses to the commands, the state and the error flag, so each method and each
-- callback is one step.
pub mod Loops
pub mod Invariant
pub mod Recovery
pub mod Steps
pub mod Parameters
use franka_gazebo.Prelude.{
  Bool, true, false, ◌||◌, not, Option, none, some, List, if◌then◌else◌, replicate,
}
use franka_gazebo.Common.ControlMode.{
  ControlMode, idle, joint_torque, joint_position, joint_velocity, cartesian_velocity,
  cartesian_pose,
}
use franka_gazebo.Common.Double.{Double}

-- The fields of libfranka's `franka::RobotState` that the sources read; `is_reflex` is
-- `robot_mode == franka::RobotMode::kReflex`.
pub record RobotState (D : Type 0) : Type 0 where
  pub q : List D
  pub dq : List D
  pub tau_j : List D
  pub o_t_ee : List D
  pub o_t_ee_d : List D
  pub is_reflex : Bool

-- The function that a control thread runs.
pub data Loop : Type 0 where
  reading torque_control joint_position_control joint_velocity_control : Loop
  cartesian_velocity_control cartesian_position_control : Loop

-- `control_thread_`: null; running its loop; joinable with its loop left; joined.
pub data Thread : Type 0 where
  absent : Thread
  running : Loop → Thread
  returned : Thread
  joined : Thread

pub record Robot (D : Type 0) : Type 0 where
  pub control_thread : Thread
  pub finish : Bool
  pub stopped : Bool
  pub has_error : Bool
  pub init_params_set : Bool
  pub current_state : RobotState D
  pub control_mode : ControlMode
  pub tau_command : List D
  pub joint_position_command : List D
  pub joint_velocity_command : List D
  pub cartesian_position_command : List D
  pub cartesian_velocity_command : List D

-- A call of libfranka: it comes back, or throws an exception that the caller of the method catches.
pub data Call : Type 0 where
  done thrown : Call

-- `control_thread_->join()`. A running loop is asked to end by `finish_`, and its next callback does
-- so (`Loops.control_callback`), so `join` comes back. What that callback does to the state counts as a round
-- before the call.
abbrev pub join : Thread → Option Thread
join absent = none
join (running l) = some joined
join returned = some joined
join joined = none

-- `control_thread_ = std::make_unique<std::thread>(…)`: the old thread object is destroyed.
abbrev pub launch : Thread → Loop → Option Thread
launch absent l = some (running l)
launch (running k) l = none
launch returned l = none
launch joined l = some (running l)

module _ {D : Type 0} where
  -- `stopRobot`; the argument is the outcome of libfranka's `stop`, and the result that of the method. An
  -- exception leaves `finish_` set and the thread joined.
  abbrev pub stop_robot_call : Call → Robot D → Option (Robot D × Call)
  stop_robot_call stop r = elim r.stopped [
    | true ↦ some (r, done)
    | false ↦ elim (join r.control_thread) [
      | none ↦ none
      | some t ↦ elim stop [
        | done ↦ some (record r { control_thread = t; finish = false; stopped = true }, done)
        | thrown ↦ some (record r { control_thread = t; finish = true }, thrown)
      ]
    ]
  ]

  -- `stopRobot` where `stop` comes back, as it does unless its exception ends the process.
  unfoldable pub stop_robot : Robot D → Option (Robot D)
  stop_robot r = elim (stop_robot_call done r) [ none ↦ none | some (u, outcome) ↦ some u ]

  -- The same with `read_mutex_` locked: a loop that runs needs it for its next callback, so `join` may wait
  -- for ever.
  abbrev pub stop_robot_locked : Robot D → Option (Robot D)
  stop_robot_locked r = elim r.stopped [
    | true ↦ some r
    | false ↦ elim r.control_thread [
      | running l ↦ none
      | absent ↦ stop_robot r
      | returned ↦ stop_robot r
      | joined ↦ stop_robot r
    ]
  ]

  -- What the six `initialize…` methods share: `assert(isStopped())`, `stopped_ = false`, the thread.
  abbrev pub start_loop : Loop → Robot D → Option (Robot D)
  start_loop l r = elim r.stopped [
    | false ↦ none
    | true ↦ elim (launch r.control_thread l) [
      | none ↦ none
      | some t ↦ some (record r { control_thread = t; stopped = false })
    ]
  ]

  unfoldable pub initialize_torque_control : Robot D → Option (Robot D)
  initialize_torque_control = start_loop torque_control

  unfoldable pub initialize_joint_position_control : Robot D → Option (Robot D)
  initialize_joint_position_control = start_loop joint_position_control

  unfoldable pub initialize_joint_velocity_control : Robot D → Option (Robot D)
  initialize_joint_velocity_control = start_loop joint_velocity_control

  unfoldable pub initialize_cartesian_velocity_control : Robot D → Option (Robot D)
  initialize_cartesian_velocity_control = start_loop cartesian_velocity_control

  unfoldable pub initialize_cartesian_position_control : Robot D → Option (Robot D)
  initialize_cartesian_position_control = start_loop cartesian_position_control

  unfoldable pub initialize_continuous_reading : Robot D → Option (Robot D)
  initialize_continuous_reading = start_loop reading

  unfoldable pub set_error : Bool → Robot D → Robot D
  set_error e r = record r { has_error = e }

  unfoldable pub set_control_mode : ControlMode → Robot D → Robot D
  set_control_mode m r = record r { control_mode = m }

  unfoldable pub set_default_params : Robot D → Robot D
  set_default_params r = record r { init_params_set = true }

  unfoldable pub write : List D → List D → List D → List D → List D → Robot D → Robot D
  write efforts positions velocities cartesian_positions cartesian_velocities r = record r {
    tau_command = efforts;
    joint_position_command = positions;
    joint_velocity_command = velocities;
    cartesian_position_command = cartesian_positions;
    cartesian_velocity_command = cartesian_velocities;
  }

  -- `once` is what `franka::Robot::readOnce` does: a state, or `none` for an
  -- `InvalidOperationException`, which is caught. The result is the method's state.
  unfoldable pub read : Option (RobotState D) → Robot D → Option (Robot D × RobotState D)
  unfolding stop_robot
  read once r = elim (r.has_error || r.stopped) [
    | false ↦ some (r, r.current_state)
    | true ↦ elim once [
      | none ↦ some (r, r.current_state)
      | some s ↦
          let fresh = record r { current_state = s } in
          elim r.has_error [
            | false ↦ some (fresh, s)
            | true ↦ elim (stop_robot_locked fresh) [ none ↦ none | some r' ↦ some (r', s) ]
          ]
    ]
  ]

-- How the connection of `Robot::Robot` ends: `std::make_unique<franka::Robot>` and
-- `setDefaultParams` succeed; `setDefaultParams` throws a control or command exception; any other
-- exception.
pub data Connection : Type 0 where
  connected refused_for_now unrecoverable : Connection

module _ {D : Type 0} ⦃d : Double D⦄ where
  -- `Robot::Robot`, for the values `state`, `mode` and `home` with which the members that the constructor
  -- leaves alone come into being. `none` is the exception that it throws.
  unfoldable pub construct : Connection → RobotState D → ControlMode → List D → Option (Robot D)
  construct unrecoverable state mode home = none
  construct c state mode home = some (record {
    control_thread = absent;
    finish = false;
    stopped = true;
    has_error = refused c;
    init_params_set = not (refused c);
    current_state = state;
    control_mode = mode;
    tau_command = replicate 7 d.nought;
    joint_position_command = home;
    joint_velocity_command = replicate 7 d.nought;
    cartesian_position_command = replicate 16 d.nought;
    cartesian_velocity_command = replicate 6 d.nought;
  })
    where
      refused : Connection → Bool
      refused refused_for_now = true
      refused other = false
