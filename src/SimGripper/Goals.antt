-- ===== src/SimGripper/Goals.antt =====
-- The threads of the goals in gripper_sim_action_server.cpp and gripper_sim_action_server.hpp. What a
-- thread sees in each round of its `while` loop is a `Poll`, as for the server of a real gripper.
use franka_gazebo.Prelude.{
  ℕ, ◌||◌, ◌≡◌, refl, arith, Bool, true, false, Option, none, some, List, [], ◌∷◌, ◌++◌, All,
  if◌then◌else◌,
}
use franka_gazebo.Gripper.{
  Width, Poll, TaskResult, CommandResult, Verdict, succeeded, aborted, canceled, dropped, Execution,
  by_cancel, by_condition, wait, answer, command_result,
}
use franka_gazebo.Gripper.Goals.{IsWaiting, IsDecisive, wait_lem}
use franka_gazebo.SimGripper.{
  Scale, Widths, sim_gripper_move, sim_gripper_grasp, sim_gripper_homing,
}
use franka_gazebo.SimGripper.Server.{SimServer, sim_gripper_stop}

-- `withResultGenerator` for a command that returns `value`; the commands of the simulated gripper throw
-- nothing.
abbrev pub sim_result : (value : Bool) → TaskResult
sim_result value = record { success = value; error = [] }

module _ {D : Type 0} (s : Scale D) where
  unfoldable pub sim_stop_service_callback : SimServer D → SimServer D × TaskResult
  unfolding sim_gripper_stop
  sim_stop_service_callback v =
      let (stopped, value) = sim_gripper_stop s v in (stopped, sim_result value)

module _ {D : Type 0} where
  -- `executeCommand` for a command that returns `value`; `none` where the thread waits on after the rounds.
  unfoldable pub sim_execute_command :
      List (Poll D) → (ok value : Bool) → Option (Execution D TaskResult)
  sim_execute_command polls ok value = elim (wait polls) [
    | none ↦ none
    | some (ws, by_cancel p) ↦
        some (record { feedback = ws; stops = true; verdict = canceled (sim_result value) })
    | some (ws, by_condition p) ↦ some (record {
      feedback = ws;
      stops = false;
      verdict = if ok then answer (sim_result value).success (sim_result value) else dropped;
    })
  ]

-- A goal of `GripperCommand` is answered at once, or runs a command that writes these inputs and returns
-- this value.
pub data SimDecision (D : Type 0) : Type 0 where
  at_once : Verdict (CommandResult D) → SimDecision D
  moves grasps : List D × Bool → SimDecision D

-- A result that says success, or none.
abbrev pub Claims : Verdict TaskResult → Type 0
Claims (succeeded r) = r.success ≡ true
Claims (aborted r) = ⊥
Claims (canceled r) = r.success ≡ true
Claims dropped = Unit

abbrev pub Ends : {D R : Type 0} → (Verdict R → Type 0) → Option (Execution D R) → Type 0
Ends P none = ⊥
Ends P (some e) = P e.verdict

module _ {D : Type 0} ⦃d : Width D⦄ where
  unfoldable pub sim_execute_gripper_command :
      List (Poll D) → (ok value : Bool) → Option (Execution D (CommandResult D))
  sim_execute_gripper_command polls ok value = elim (wait polls) [
    | none ↦ none
    | some (ws, by_cancel p) ↦
        some (record {
          feedback = ws;
          stops = true;
          verdict = canceled (command_result d.nought value);
        })
    | some (ws, by_condition p) ↦ some (record {
      feedback = ws;
      stops = false;
      verdict = if ok then answer value (command_result p.width value) else dropped;
    })
  ]

  unfoldable pub sim_on_execute_gripper_command :
      (s : Scale D) (is_set : ℕ → Bool) (position : D) → Widths D → SimDecision D
  sim_on_execute_gripper_command s is_set position now =
      let target = d.twice position in
      if d.less now.max_width target || d.less target d.nought
      then at_once (aborted (command_result d.nought false))
      else if d.close target now.width
      then at_once (succeeded (command_result now.width true))
      else if d.at_least target now.width
      then moves (sim_gripper_move s is_set now target s.default_speed)
      else grasps (sim_gripper_grasp s is_set now target s.default_speed)

  abbrev pub ClaimsReached : Verdict (CommandResult D) → Type 0
  ClaimsReached (succeeded r) = r.reached_goal ≡ true
  ClaimsReached (aborted r) = ⊥
  ClaimsReached (canceled r) = r.reached_goal ≡ true
  ClaimsReached dropped = Unit

  -- What holds of the value that the command of a goal returns, if it runs one.
  abbrev pub Runs : (Bool → Type 0) → SimDecision D → Type 0
  Runs P (at_once v) = Unit
  Runs P (moves c) = P c.1
  Runs P (grasps c) = P c.1

  -- What holds of the value that homing returns, if it returns.
  abbrev pub Homed : (Bool → Type 0) → Option (List D × (D × Bool)) → Type 0
  Homed P none = Unit
  Homed P (some (inputs, (high, value))) = P value

  task_end :
      (front : List (Poll D)) (p : Poll D) (back : List (Poll D)) (ok value : Bool)
      → All IsWaiting front
      → IsDecisive p
      → value ≡ true
      → Ends Claims (sim_execute_command (front ++ p ∷ back) ok value)
  unfolding sim_execute_command
  task_end front p back ok value h k v = ground (arith, wait_lem front p back h k)

  command_end :
      (front : List (Poll D)) (p : Poll D) (back : List (Poll D)) (ok value : Bool)
      → All IsWaiting front
      → IsDecisive p
      → value ≡ true
      → Ends ClaimsReached (sim_execute_gripper_command (front ++ p ∷ back) ok value)
  unfolding sim_execute_gripper_command
  command_end front p back ok value h k v = ground (arith, wait_lem front p back h k)

  homing-Homed :
      (s : Scale D) (flags : List Bool) (now : Widths D)
      → Homed (λ value. value ≡ true) (sim_gripper_homing s flags now)
  unfolding sim_gripper_homing
  homing-Homed s flags now = ground arith

  weaker-Homed :
      {P Q : Bool → Type 0} (o : Option (List D × (D × Bool)))
      → ((value : Bool) → P value → Q value)
      → Homed P o
      → Homed Q o
  weaker-Homed none f h = tt
  weaker-Homed (some (inputs, (high, value))) f h = f value h

  decision-Runs :
      (s : Scale D) (is_set : ℕ → Bool) (position : D) (now : Widths D)
      → Runs (λ value. value ≡ true) (sim_on_execute_gripper_command s is_set position now)
  unfolding sim_on_execute_gripper_command sim_gripper_move sim_gripper_grasp
  decision-Runs s is_set position now = ground arith

  weaker-Runs :
      {P Q : Bool → Type 0} (o : SimDecision D)
      → ((value : Bool) → P value → Q value)
      → Runs P o
      → Runs Q o
  weaker-Runs (at_once v) f h = tt
  weaker-Runs (moves c) f h = f c.1 h
  weaker-Runs (grasps c) f h = f c.1 h

  -- Once its thread sees the result, a shutdown or a cancellation, a goal to move, to grasp or, once homing
  -- returns, to home is never aborted, nor is a goal of `GripperCommand` whose command runs. Whatever answer
  -- it gets says that it was successful or that the position was reached, however its loop ended: also where
  -- the flag of a cancellation or of the stop service was set in any of its rounds.
  pub sim_execute-Ends :
      (front : List (Poll D)) (p : Poll D) (back : List (Poll D)) (ok : Bool) (s : Scale D)
      (is_set : ℕ → Bool) (flags : List Bool) (now : Widths D) (width speed : D)
      → All IsWaiting front
      → IsDecisive p
      → Ends Claims
          (sim_execute_command (front ++ p ∷ back) ok (sim_gripper_move s is_set now width speed).1)
        × Ends Claims (
            sim_execute_command
              (front ++ p ∷ back)
              ok
              (sim_gripper_grasp s is_set now width speed).1)
        × Homed
            (λ value. Ends Claims (sim_execute_command (front ++ p ∷ back) ok value))
            (sim_gripper_homing s flags now)
        × Runs
            (λ value. Ends ClaimsReached (sim_execute_gripper_command (front ++ p ∷ back) ok value))
            (sim_on_execute_gripper_command s is_set width now)
  unfolding sim_gripper_move sim_gripper_grasp
  sim_execute-Ends front p back ok s is_set flags now width speed h k = (
    task_end front p back ok true h k refl,
    task_end front p back ok true h k refl,
    weaker-Homed (sim_gripper_homing s flags now) (λ value v. task_end front p back ok value h k v)
        (homing-Homed s flags now),
    weaker-Runs (sim_on_execute_gripper_command s is_set width now)
        (λ value v. command_end front p back ok value h k v) (decision-Runs s is_set width now),
  )
