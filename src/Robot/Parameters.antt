-- ===== src/Robot/Parameters.antt =====
-- franka_hardware/src/real/franka_param_service_server.cpp with its header, and the setters for parameters in
-- franka_hardware/src/real/robot.cpp. The arm, which libfranka speaks to, is an argument: how it answers to
-- each call. The messages of the services are a data type with a constructor for each service.
pub mod Passed
use franka_gazebo.Prelude.{
  ℕ, zero, suc, Bool, true, false, Option, none, some, List, [], ◌∷◌, Name, codes, replicate,
}
use franka_gazebo.Common.Double.{Double}

-- The thresholds of a collision, of which libfranka has two kinds.
pub record Thresholds (D : Type 0) : Type 0 where
  pub lower_torque : List D
  pub upper_torque : List D
  pub lower_force : List D
  pub upper_force : List D

-- The requests to the seven services.
pub data ParamRequest (D : Type 0) : Type 0 where
  joint_stiffness_request : List D → ParamRequest D
  cartesian_stiffness_request : List D → ParamRequest D
  tcp_frame_request : List D → ParamRequest D
  stiffness_frame_request : List D → ParamRequest D
  force_torque_request : Thresholds D → ParamRequest D
  full_collision_request : (acceleration nominal : Thresholds D) → ParamRequest D
  load_request : (mass : D) (center_of_mass load_inertia : List D) → ParamRequest D

-- The calls of `franka::Robot`, with the arguments in its order.
pub data ParamCall (D : Type 0) : Type 0 where
  set_joint_impedance : List D → ParamCall D
  set_cartesian_impedance : List D → ParamCall D
  set_ee : List D → ParamCall D
  set_k : List D → ParamCall D
  set_collision_behavior_4 :
      (lower_torque upper_torque lower_force upper_force : List D) → ParamCall D
  set_collision_behavior_8 :
      (lower_torque_acceleration upper_torque_acceleration : List D)
      (lower_torque_nominal upper_torque_nominal : List D)
      (lower_force_acceleration upper_force_acceleration : List D)
      (lower_force_nominal upper_force_nominal : List D)
      → ParamCall D
  set_robot_load : (mass : D) (center_of_mass load_inertia : List D) → ParamCall D

-- How a call of libfranka ends; `other_exception` is one that the node does not catch.
pub data ParamOutcome : Type 0 where
  accepted command_exception network_exception other_exception : ParamOutcome

pub record ParamResponse : Type 0 where
  pub success : Bool
  pub error : Name

-- `std::copy` of a whole array to the front of another one.
abbrev pub copied_onto {ℓ} : {A : Type ℓ} → (source target : List A) → List A
copied_onto [] target = target
copied_onto (x ∷ xs) [] = []
copied_onto (x ∷ xs) (y ∷ ys) = x ∷ copied_onto xs ys

module _ {D : Type 0} ⦃d : Double D⦄ where
  -- The array of a setter: zeros, and the request's entries over them.
  abbrev pub array_of : (size : ℕ) → List D → List D
  array_of size xs = copied_onto xs (replicate size d.nought)

  unfoldable pub set_joint_stiffness : List D → ParamCall D
  set_joint_stiffness xs = set_joint_impedance (array_of 7 xs)

  unfoldable pub set_cartesian_stiffness : List D → ParamCall D
  set_cartesian_stiffness xs = set_cartesian_impedance (array_of 6 xs)

  unfoldable pub set_load : (mass : D) (center_of_mass load_inertia : List D) → ParamCall D
  set_load mass center_of_mass load_inertia =
      set_robot_load mass (array_of 3 center_of_mass) (array_of 9 load_inertia)

  unfoldable pub set_tcp_frame : List D → ParamCall D
  set_tcp_frame xs = set_ee (array_of 16 xs)

  unfoldable pub set_stiffness_frame : List D → ParamCall D
  set_stiffness_frame xs = set_k (array_of 16 xs)

  unfoldable pub set_force_torque_collision_behavior : Thresholds D → ParamCall D
  set_force_torque_collision_behavior t =
      set_collision_behavior_4 (array_of 7 t.lower_torque) (array_of 7 t.upper_torque)
        (array_of 6 t.lower_force) (array_of 6 t.upper_force)

  unfoldable pub set_full_collision_behavior : (acceleration nominal : Thresholds D) → ParamCall D
  set_full_collision_behavior a n =
      set_collision_behavior_8 (array_of 7 a.lower_torque) (array_of 7 a.upper_torque)
        (array_of 7 n.lower_torque) (array_of 7 n.upper_torque) (array_of 6 a.lower_force)
        (array_of 6 a.upper_force) (array_of 6 n.lower_force) (array_of 6 n.upper_force)

  -- The call that a callback makes.
  unfoldable pub call_of : ParamRequest D → ParamCall D
  unfolding set_joint_stiffness set_cartesian_stiffness set_load set_tcp_frame set_stiffness_frame
      set_force_torque_collision_behavior set_full_collision_behavior
  call_of (joint_stiffness_request xs) = set_joint_stiffness xs
  call_of (cartesian_stiffness_request xs) = set_cartesian_stiffness xs
  call_of (tcp_frame_request xs) = set_tcp_frame xs
  call_of (stiffness_frame_request xs) = set_stiffness_frame xs
  call_of (force_torque_request t) = set_force_torque_collision_behavior t
  call_of (full_collision_request a n) = set_full_collision_behavior a n
  call_of (load_request mass c i) = set_load mass c i

-- What `setGenericRobotParam` makes of the end of the call; `none` where an exception leaves the callback.
unfoldable pub set_generic_robot_param : ParamOutcome → ParamResponse → Option ParamResponse
set_generic_robot_param accepted r = some (record r { success = true })
set_generic_robot_param command_exception r =
    some (record { success = false; error = codes "command exception error" })
set_generic_robot_param network_exception r =
    some (record { success = false; error = codes "network exception error" })
set_generic_robot_param other_exception r = none

-- A callback of the services.
unfoldable pub param_callback :
    {D : Type 0} ⦃d : Double D⦄ (arm : ParamCall D → ParamOutcome)
    → ParamRequest D
    → ParamResponse
    → Option ParamResponse
unfolding call_of set_generic_robot_param
param_callback arm request r = set_generic_robot_param (arm (call_of request)) r
