-- ===== src/Gripper.antt =====
-- franka_gripper/src/gripper_action_server.cpp and include/franka_gripper/gripper_action_server.hpp: the
-- action servers around libfranka's gripper. A goal runs on its own thread, beside the command to the
-- gripper; what the thread sees in each round of its `while` loop is a `Poll`.
pub mod Goals
use franka_gazebo.Prelude.{
  Bool, true, false, ◌&&◌, ◌||◌, not, Option, none, some, List, [], ◌∷◌, if◌then◌else◌, Name,
}

-- What the sources do with a `double` here: the comparisons, of which none holds for a NaN, and the
-- test `std::abs(target - current) < kSamePositionThreshold`.
pub record Width (D : Type 0) : Type 0 where
  pub nought : D
  pub twice : D → D
  pub less : D → D → Bool
  pub at_least : D → D → Bool
  pub close : D → D → Bool

-- How a call of libfranka's gripper ends: its Boolean, or the text of a `franka::Exception`.
pub data CommandOutcome : Type 0 where
  returned : Bool → CommandOutcome
  thrown : Name → CommandOutcome

-- The answers of `resultIsReady`, `rclcpp::ok` and `is_canceling` in one round, and the width that is
-- current then.
pub record Poll (D : Type 0) : Type 0 where
  pub is_ready : Bool
  pub is_ok : Bool
  pub is_canceling : Bool
  pub width : D

-- The result of homing, moving and grasping.
pub record TaskResult : Type 0 where
  pub success : Bool
  pub error : Name

-- The result of the action `GripperCommand`.
pub record CommandResult (D : Type 0) : Type 0 where
  pub position : D
  pub effort : D
  pub reached_goal : Bool
  pub stalled : Bool

-- How a goal ends; `dropped` where ROS shuts down and the goal gets no answer.
pub data Verdict (R : Type 0) : Type 0 where
  succeeded aborted canceled : R → Verdict R
  dropped : Verdict R

-- What the execution of a goal does: the widths of the feedback, whether it stops the gripper, the end.
pub record Execution (D R : Type 0) : Type 0 where
  pub feedback : List D
  pub stops : Bool
  pub verdict : Verdict R

-- The round in which the loop is left by the `return` for a canceled goal, or by its condition.
pub data Left (D : Type 0) : Type 0 where
  by_cancel by_condition : Poll D → Left D

-- `withResultGenerator`.
unfoldable pub with_result : CommandOutcome → TaskResult
with_result (returned b) = record { success = b; error = [] }
with_result (thrown e) = record { success = false; error = e }

abbrev pub answer : {R : Type 0} → Bool → R → Verdict R
answer b r = if b then succeeded r else aborted r

-- `reached_goal` of the thread that runs the command.
abbrev pub reached : CommandOutcome → Bool
reached (returned b) = b
reached (thrown e) = false

module _ {D : Type 0} where
  abbrev pub after_feedback : D → Option (List D × Left D) → Option (List D × Left D)
  after_feedback w none = none
  after_feedback w (some (ws, l)) = some (w ∷ ws, l)

  -- The `while` loop over the rounds; `none` where it goes on after them.
  unfoldable pub wait : List (Poll D) → Option (List D × Left D)
  wait [] = none
  wait (p ∷ ps) =
      let more = after_feedback p.width (wait ps) in
      if p.is_ready || not p.is_ok
      then some ([], by_condition p)
      else if p.is_canceling
      then some ([], by_cancel p)
      else more

  -- `ok` is what `rclcpp::ok` says after the loop.
  unfoldable pub execute_command :
      List (Poll D) → (ok : Bool) → CommandOutcome → Option (Execution D TaskResult)
  unfolding wait with_result
  execute_command polls ok command = elim (wait polls) [
    | none ↦ none
    | some (ws, by_cancel p) ↦
        some (record { feedback = ws; stops = true; verdict = canceled (with_result command) })
    | some (ws, by_condition p) ↦ some (record {
      feedback = ws;
      stops = false;
      verdict = if ok then answer (with_result command).success (with_result command) else dropped;
    })
  ]

module _ {D : Type 0} ⦃d : Width D⦄ where
  abbrev pub command_result : D → Bool → CommandResult D
  command_result w b = record { position = w; effort = d.nought; reached_goal = b; stalled = false }

  unfoldable pub execute_gripper_command :
      List (Poll D) → (ok : Bool) → CommandOutcome → Option (Execution D (CommandResult D))
  unfolding wait
  execute_gripper_command polls ok command = elim (wait polls) [
    | none ↦ none
    | some (ws, by_cancel p) ↦ some (record {
      feedback = ws;
      stops = true;
      verdict = canceled (command_result d.nought (reached command));
    })
    | some (ws, by_condition p) ↦ some (record {
      feedback = ws;
      stops = false;
      verdict =
          if ok
          then answer (reached command) (command_result p.width (reached command))
          else dropped;
    })
  ]

-- `franka::GripperState`, as far as it is read.
pub record GripperState (D : Type 0) : Type 0 where
  pub width : D
  pub max_width : D

-- The command that a goal of `GripperCommand` becomes: `move` with the width, or `grasp` with the width
-- and the effort; the speed and the tolerances are the server's parameters.
pub data Motion (D : Type 0) : Type 0 where
  move : D → Motion D
  grasp : D → D → Motion D

-- A goal is answered at once, or a motion is commanded and executed.
pub data Decision (D : Type 0) : Type 0 where
  at_once : Verdict (CommandResult D) → Decision D
  commands : Motion D → Decision D

module _ {D : Type 0} ⦃d : Width D⦄ where
  unfoldable pub on_execute_gripper_command :
      (position max_effort : D) → GripperState D → Decision D
  on_execute_gripper_command position max_effort s =
      let target = d.twice position in
      if d.less s.max_width target || d.less target d.nought
      then at_once (aborted (command_result d.nought false))
      else if d.close target s.width
      then at_once (succeeded (command_result s.width true))
      else if d.at_least target s.width
      then commands (move target)
      else commands (grasp target max_effort)

module _ {D : Type 0} where
  -- `readOnce` gives a state or throws, and the old state stays.
  unfoldable pub publish_gripper_state : Option (GripperState D) → GripperState D → GripperState D
  publish_gripper_state none s = s
  publish_gripper_state (some new) s = new

unfoldable pub stop_service_callback : CommandOutcome → TaskResult
unfolding with_result
stop_service_callback = with_result
