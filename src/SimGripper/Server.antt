-- ===== src/SimGripper/Server.antt =====
-- The server of gripper_sim_action_server.cpp: the flag `is_canceled_`, the shared states of the gripper and
-- the loops of moves and grasps that run, each on a thread of its own. No mutex joins the test of the flag
-- in a round and the input that the round writes, nor the flag that a stop sets and the input that it
-- writes, so each of these is a step of its own.
pub mod Cancel
use franka_gazebo.Prelude.{
  ℕ, zero, suc, ◌+◌, ◌++◌, Bool, true, false, Option, none, some, List, [], ◌∷◌, if◌then◌else◌,
}
use franka_gazebo.SimGripper.{Scale, Widths, clamped, steps_of, delta_of}

-- A loop of `simGripperMove` or `simGripperGrasp`: the rounds that are left, the step, the width, and
-- whether the round has passed the test of `is_canceled_` and not written its input yet.
pub record Drive (D : Type 0) : Type 0 where
  pub left : ℕ
  pub delta : D
  pub cur_width : D
  pub passed : Bool

-- `input` and `finger` are the entries 0 and 1 of `gripper_states_ptr_`.
pub record SimServer (D : Type 0) : Type 0 where
  pub input : D
  pub finger : D
  pub current : Widths D
  pub is_canceled : Bool
  pub drives : List (Drive D)

-- What the threads of the server do: `stop_request` and `stop_write` are the parts of `simGripperStop`,
-- `check n` and `write n` the parts of a round of the n-th loop.
pub data Event (D : Type 0) : Type 0 where
  goal_request cancel_request stop_request stop_write publish : Event D
  start_move start_grasp : (width speed : D) → Event D
  check write : ℕ → Event D

module _ {D : Type 0} (s : Scale D) where
  abbrev pub handle_goal : SimServer D → SimServer D
  handle_goal v = record v { is_canceled = false }

  abbrev pub handle_cancel : SimServer D → SimServer D
  handle_cancel v = record v { is_canceled = true }

  -- `simGripperStop` sets the flag and, under its mutex, writes the input of the width.
  abbrev pub stop_flag : SimServer D → SimServer D
  stop_flag v = record v { is_canceled = true }

  abbrev pub stop_input : SimServer D → SimServer D
  stop_input v = record v { input = s.input_of v.current.width }

  unfoldable pub sim_gripper_stop : SimServer D → SimServer D × Bool
  sim_gripper_stop v = (stop_input (stop_flag v), true)

  -- The part of `publishGripperState` that reads the state; `max_width` is 0.08.
  unfoldable pub publish_sim_state : (max_width : D) → SimServer D → SimServer D
  publish_sim_state max_width v = record v {
    current = record { width = s.plus v.finger v.finger; max_width = max_width };
  }

  -- The loops as they start.
  abbrev pub move_drive : Widths D → (width speed : D) → Drive D
  move_drive now width speed = record {
    left = s.rounds_of (steps_of s now width speed);
    delta = delta_of s now width speed;
    cur_width = now.width;
    passed = false;
  }

  abbrev pub grasp_drive : Widths D → (width speed : D) → Drive D
  grasp_drive now width speed = record {
    left = s.grasp_rounds_of (steps_of s now width speed);
    delta = delta_of s now width speed;
    cur_width = now.width;
    passed = false;
  }

  unfoldable pub start_sim_move : (width speed : D) → SimServer D → SimServer D
  start_sim_move width speed v = record v { drives = move_drive v.current width speed ∷ v.drives }

  unfoldable pub start_sim_grasp : (width speed : D) → SimServer D → SimServer D
  start_sim_grasp width speed v = record v { drives = grasp_drive v.current width speed ∷ v.drives }

  -- The test of the flag at the start of a round; a loop that has passed it does not test again.
  unfoldable pub check_round : Bool → Drive D → Drive D
  check_round is_canceled d = elim d.left [
    | zero ↦ d
    | suc left ↦
        if d.passed
        then d
        else if is_canceled
        then record d { left = 0 }
        else record d { passed = true }
  ]

  -- The rest of the round: what it writes, and the loop after it.
  unfoldable pub write_round : Drive D → Option D × Drive D
  write_round d =
      let next = s.plus d.cur_width d.delta in
      elim d.left [
        | zero ↦ (none, d)
        | suc left ↦
            if d.passed
            then (some (clamped s next), record d { left = left; cur_width = next; passed = false })
            else (none, d)
      ]

  -- A step of the n-th loop.
  abbrev pub check_in : ℕ → Bool → List (Drive D) → List (Drive D)
  check_in n is_canceled [] = []
  check_in zero is_canceled (d ∷ drives) = check_round is_canceled d ∷ drives
  check_in (suc n) is_canceled (d ∷ drives) = d ∷ check_in n is_canceled drives

  abbrev pub write_in : ℕ → List (Drive D) → Option D × List (Drive D)
  write_in n [] = (none, [])
  write_in zero (d ∷ drives) = let (x, d') = write_round d in (x, d' ∷ drives)
  write_in (suc n) (d ∷ drives) = let (x, rest) = write_in n drives in (x, d ∷ rest)

  abbrev pub write_input : Option D → SimServer D → SimServer D
  write_input none v = v
  write_input (some x) v = record v { input = x }

  unfoldable pub happen : (max_width : D) → Event D → SimServer D → SimServer D
  happen max_width goal_request v = handle_goal v
  happen max_width cancel_request v = handle_cancel v
  happen max_width stop_request v = stop_flag v
  happen max_width stop_write v = stop_input v
  happen max_width publish v = publish_sim_state max_width v
  happen max_width (start_move width speed) v = start_sim_move width speed v
  happen max_width (start_grasp width speed) v = start_sim_grasp width speed v
  happen max_width (check n) v = record v { drives = check_in n v.is_canceled v.drives }
  happen max_width (write n) v =
      let (x, drives) = write_in n v.drives in write_input x (record v { drives = drives })

  abbrev pub happen_all : (max_width : D) → List (Event D) → SimServer D → SimServer D
  happen_all max_width [] v = v
  happen_all max_width (e ∷ events) v = happen_all max_width events (happen max_width e v)
