-- ===== src/Gripper/Goals.antt =====
-- How the goals of gripper_action_server.cpp end, and which motions they command.
use franka_gazebo.Prelude.{
  ◌≡◌, refl, ap, ◌∙◌, arith, Bool, true, false, ◌||◌, not, some, List, [], ◌∷◌, ◌++◌, map, All,
  if◌then◌else◌, Bool-cases, inl, inr,
}
use franka_gazebo.Gripper.{
  Width, CommandOutcome, Poll, TaskResult, CommandResult, Verdict, canceled, dropped, Left,
  by_cancel, by_condition, with_result, after_feedback, wait, answer, execute_command,
  execute_gripper_command, command_result, reached, GripperState, Motion, move, grasp, commands,
  on_execute_gripper_command,
}

module _ {D : Type 0} where
  -- In this round the goal waits on: no result yet, no shutdown, no request to cancel.
  abbrev pub IsWaiting : Poll D → Type 0
  IsWaiting p = (p.is_ready ≡ false) × (p.is_ok ≡ true) × (p.is_canceling ≡ false)

  -- In this round the goal ends.
  abbrev pub IsDecisive : Poll D → Type 0
  IsDecisive p = p.is_ready || not p.is_ok || p.is_canceling ≡ true

  -- A canceled goal counts only while the result is not ready and ROS runs.
  abbrev pub left_in : Poll D → Left D
  left_in p = if p.is_ready || not p.is_ok then by_condition p else by_cancel p

  wait_waiting :
      (p : Poll D) (ps : List (Poll D))
      → IsWaiting p
      → wait (p ∷ ps) ≡ after_feedback p.width (wait ps)
  unfolding wait
  wait_waiting p ps h = ground arith

  wait_decisive :
      (p : Poll D) (ps : List (Poll D)) → IsDecisive p → wait (p ∷ ps) ≡ some ([], left_in p)
  unfolding wait
  wait_decisive p ps h = ground arith

  pub wait_lem :
      (front : List (Poll D)) (p : Poll D) (back : List (Poll D))
      → All IsWaiting front
      → IsDecisive p
      → wait (front ++ p ∷ back) ≡ some (map (λ (q : Poll D). q.width) front, left_in p)
  wait_lem [] p back h k = wait_decisive p back k
  wait_lem (q ∷ front) p back h k =
      wait_waiting q (front ++ p ∷ back) h.0
      ∙ ap (after_feedback q.width) (wait_lem front p back h.1 k)

  -- The end of a task whose thread leaves its loop in a round.
  abbrev pub task_verdict : Poll D → (ok : Bool) → CommandOutcome → Verdict TaskResult
  task_verdict p ok command =
      if p.is_ready || not p.is_ok
      then if ok then answer (with_result command).success (with_result command) else dropped
      else canceled (with_result command)

  -- A task ends in the first round in which its result is there, ROS shuts down or it is to be canceled,
  -- and gives one feedback for each round before. It is canceled, and the gripper stopped, only if the
  -- result was not there; otherwise the command's result decides, unless ROS shuts down, when it gets no
  -- answer.
  pub execute_command_lem :
      (front : List (Poll D)) (p : Poll D) (back : List (Poll D)) (ok : Bool)
      (command : CommandOutcome)
      → All IsWaiting front
      → IsDecisive p
      → execute_command (front ++ p ∷ back) ok command
        ≡ some (record {
          feedback = map (λ (q : Poll D). q.width) front;
          stops = not (p.is_ready || not p.is_ok);
          verdict = task_verdict p ok command;
        })
  unfolding execute_command
  execute_command_lem front p back ok command h k = elim (Bool-cases (p.is_ready || not p.is_ok)) [
    | inl e ↦ rw (execute_command, wait_lem front p back h k, e) refl
    | inr e ↦ rw (execute_command, wait_lem front p back h k, e) refl
  ]

module _ {D : Type 0} ⦃d : Width D⦄ where
  -- The target width that a motion has.
  abbrev pub target_of : Motion D → D
  target_of (move w) = w
  target_of (grasp w f) = w

  abbrev pub is_move : Motion D → Bool
  is_move (move w) = true
  is_move (grasp w f) = false

  -- A goal that commands a motion has a target of twice its position, which compares neither as more than
  -- the gripper's width nor as less than 0 and is not close to the current width; the gripper moves if the
  -- target compares as at least the current width, and grasps otherwise.
  pub on_execute_gripper_command-commands :
      (position max_effort : D) (s : GripperState D) (m : Motion D)
      → on_execute_gripper_command position max_effort s ≡ commands m
      → (target_of m ≡ d.twice position)
        × (d.less s.max_width (target_of m) ≡ false)
        × (d.less (target_of m) d.nought ≡ false)
        × (d.close (target_of m) s.width ≡ false)
        × (is_move m ≡ d.at_least (target_of m) s.width)
  unfolding on_execute_gripper_command
  on_execute_gripper_command-commands position max_effort s m e = ground arith

  -- A position whose double compares with nothing, as a NaN does, passes the check of the range, and the
  -- gripper is told to grasp at that width.
  pub on_execute_gripper_command_incomparable :
      (position max_effort : D) (s : GripperState D)
      → ((w : D) → d.less (d.twice position) w ≡ false)
      → ((w : D) → d.less w (d.twice position) ≡ false)
      → ((w : D) → d.close (d.twice position) w ≡ false)
      → ((w : D) → d.at_least (d.twice position) w ≡ false)
      → on_execute_gripper_command position max_effort s
        ≡ commands (grasp (d.twice position) max_effort)
  unfolding on_execute_gripper_command
  on_execute_gripper_command_incomparable position max_effort s below above close least =
      ground (arith, below d.nought, above s.max_width, close s.width, least s.width)

  -- The end of a `GripperCommand` whose thread leaves its loop in a round.
  abbrev pub command_verdict : Poll D → (ok : Bool) → CommandOutcome → Verdict (CommandResult D)
  command_verdict p ok command =
      if p.is_ready || not p.is_ok
      then if ok
        then answer (reached command) (command_result p.width (reached command))
        else dropped
      else canceled (command_result d.nought (reached command))

  -- A `GripperCommand` ends in the first round in which its result is there, ROS shuts down or it is to be
  -- canceled, with one feedback for each round before. It succeeds or is aborted as the command's result
  -- says, with the width of that last round as the position reached; a canceled one reports position 0.
  pub execute_gripper_command_lem :
      (front : List (Poll D)) (p : Poll D) (back : List (Poll D)) (ok : Bool)
      (command : CommandOutcome)
      → All IsWaiting front
      → IsDecisive p
      → execute_gripper_command (front ++ p ∷ back) ok command
        ≡ some (record {
          feedback = map (λ (q : Poll D). q.width) front;
          stops = not (p.is_ready || not p.is_ok);
          verdict = command_verdict p ok command;
        })
  unfolding execute_gripper_command
  execute_gripper_command_lem front p back ok command h k =
      elim (Bool-cases (p.is_ready || not p.is_ok)) [
        | inl e ↦ rw (execute_gripper_command, wait_lem front p back h k, e) refl
        | inr e ↦ rw (execute_gripper_command, wait_lem front p back h k, e) refl
      ]
