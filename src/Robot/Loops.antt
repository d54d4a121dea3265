-- ===== src/Robot/Loops.antt =====
-- The callbacks that the six `initialize…` methods of robot.cpp hand to libfranka, and what the
-- control thread does around them.
use franka_gazebo.Prelude.{Bool, true, false, not, List, ◌≡◌, arith, if◌then◌else◌}
use franka_gazebo.Robot.{
  Robot, RobotState, Loop, reading, torque_control, joint_position_control, joint_velocity_control,
  cartesian_velocity_control, cartesian_position_control, running, returned, write,
}

-- What a callback gives back: a command with its flag `motion_finished`, whether to go on reading, or
-- the exception "Reflex!".
pub data Reply (D : Type 0) : Type 0 where
  motion : List D → Bool → Reply D
  keep_reading : Bool → Reply D
  reflex : Reply D

module _ {D : Type 0} where
  abbrev pub fresh : RobotState D → Robot D → Robot D
  fresh s r = record r { current_state = s }

  unfoldable pub control_callback : Loop → RobotState D → Robot D → Robot D × Reply D
  control_callback reading s r =
      if s.is_reflex
      then (record (fresh s r) { has_error = true }, reflex)
      else (fresh s r, keep_reading (not r.finish))
  control_callback torque_control s r = (fresh s r, motion r.tau_command r.finish)
  control_callback joint_position_control s r =
      (fresh s r, motion r.joint_position_command r.finish)
  control_callback joint_velocity_control s r =
      (fresh s r, motion r.joint_velocity_command r.finish)
  control_callback cartesian_velocity_control s r =
      (fresh s r, motion r.cartesian_velocity_command r.finish)
  control_callback cartesian_position_control s r =
      (fresh s r, motion r.cartesian_position_command r.finish)

  -- The thread goes on, leaves its loop, or leaves it through the handler that sets the error.
  abbrev after_reply : Loop → Robot D × Reply D → Robot D
  after_reply l (r, motion c true) = record r { control_thread = returned }
  after_reply l (r, motion c false) = record r { control_thread = running l }
  after_reply l (r, keep_reading true) = record r { control_thread = running l }
  after_reply l (r, keep_reading false) = record r { control_thread = returned }
  after_reply l (r, reflex) = record r { control_thread = returned; has_error = true }

  -- One round of the control thread while it runs loop `l` and libfranka reports the state `s`.
  unfoldable pub thread_round : Loop → RobotState D → Robot D → Robot D
  unfolding control_callback
  thread_round l s r = after_reply l (control_callback l s r)

  -- The loop ends with an exception that the thread's handler catches.
  unfoldable pub thread_fails : Robot D → Robot D
  thread_fails r = record r { control_thread = returned; has_error = true }

  -- Once `finish_` is set, as `stopRobot` does before it joins, the next round ends every loop.
  pub thread_round-finish :
      (l : Loop) (s : RobotState D) (r : Robot D)
      → r.finish ≡ true
      → (thread_round l s r).control_thread ≡ returned
  unfolding thread_round
  thread_round-finish reading s r h = ground arith
  thread_round-finish _ s r h = ground arith

  -- The command array that a loop sends.
  abbrev pub Sends : Loop → (efforts positions velocities pose twist : List D) → Reply D → Type 0
  Sends reading e p v cp cv m = Unit
  Sends torque_control e p v cp cv m = m ≡ motion e false
  Sends joint_position_control e p v cp cv m = m ≡ motion p false
  Sends joint_velocity_control e p v cp cv m = m ≡ motion v false
  Sends cartesian_velocity_control e p v cp cv m = m ≡ motion cv false
  Sends cartesian_position_control e p v cp cv m = m ≡ motion cp false

  -- After `write`, each control loop sends the array written for its kind of command, and asks for no
  -- end of the motion, whatever state libfranka reports.
  pub control_callback-write :
      (l : Loop) (s : RobotState D) (r : Robot D) (e p v cp cv : List D)
      → r.finish ≡ false
      → Sends l e p v cp cv (control_callback l s (write e p v cp cv r)).1
  unfolding control_callback write
  control_callback-write reading s r e p v cp cv h = tt
  control_callback-write _ s r e p v cp cv h = ground arith
