-- ===== src/SimGripper.antt =====
-- franka_hardware/src/sim/gripper_sim_action_server.cpp: the commands of the simulated gripper, that run
-- beside the thread of their goal and write the input of the fingers' actuator, one value in each round.
-- The flag `is_canceled_`, which other threads set, is an argument: its value in each round.
pub mod Driving
pub mod Homing
pub mod Server
pub mod Goals
use franka_gazebo.Prelude.{
  ℕ, zero, suc, ◌+◌, Bool, true, false, ◌&&◌, not, Option, none, some, List, [], ◌∷◌, ◌++◌,
  if◌then◌else◌,
}

-- What the source does with a `double` here. `input_of w` is `w / 0.0003137`; `rounds_of d` converts
-- `std::abs(d)` to an `int` and `grasp_rounds_of d` converts `std::abs(d) + 50`, where C++ defines it.
-- `one`, `full` and `closed` are 1, 255 and 0.001.
pub record Scale (D : Type 0) : Type 0 where
  pub nought : D
  pub one : D
  pub full : D
  pub closed : D
  pub less : D → D → Bool
  pub at_most : D → D → Bool
  pub plus : D → D → D
  pub minus : D → D → D
  pub times : D → D → D
  pub over : D → D → D
  pub negated : D → D
  pub input_of : D → D
  pub rounds_of : D → ℕ
  pub grasp_rounds_of : D → ℕ
  pub default_speed : D
  pub dt : D

-- The widths of `current_gripper_state_`.
pub record Widths (D : Type 0) : Type 0 where
  pub width : D
  pub max_width : D

module _ {D : Type 0} (s : Scale D) where
  -- `std::max` and `std::min`, which give the first argument where a NaN is compared.
  abbrev pub max_of : D → D → D
  max_of a b = if s.less a b then b else a

  abbrev pub min_of : D → D → D
  min_of a b = if s.less b a then b else a

  abbrev pub clamped : D → D
  clamped w = min_of (max_of s.nought (s.input_of w)) s.full

  -- The loop of a motion: `left` rounds from the round `count`, with the width that it starts from.
  unfoldable pub drive_rounds :
      (canceled : ℕ → Bool) (left count : ℕ) (delta cur_width : D) → List D
  drive_rounds canceled zero count delta cur_width = []
  drive_rounds canceled (suc left) count delta cur_width =
      let next = s.plus cur_width delta in
      let rest = drive_rounds canceled left (count + 1) delta next in
      if canceled count then [] else clamped next ∷ rest

  abbrev pub speed_of : D → D
  speed_of speed = if s.at_most speed s.nought then s.default_speed else speed

  abbrev pub distance : Widths D → D → D
  distance now width = s.minus (min_of now.max_width width) now.width

  abbrev pub direction : D → D
  direction dist = if s.less dist s.nought then s.negated s.one else s.one

  -- The distance in steps.
  abbrev pub steps_of : (now : Widths D) (width speed : D) → D
  steps_of now width speed = s.over (distance now width) (s.times (speed_of speed) s.dt)

  abbrev pub delta_of : (now : Widths D) (width speed : D) → D
  delta_of now width speed =
      s.times (s.times (direction (distance now width)) (speed_of speed)) s.dt

  -- The inputs that a command writes, and what it returns.
  unfoldable pub sim_gripper_move :
      (canceled : ℕ → Bool) (now : Widths D) (width speed : D) → List D × Bool
  sim_gripper_move canceled now width speed = (
    drive_rounds canceled (s.rounds_of (steps_of now width speed)) 0 (delta_of now width speed)
        now.width,
    true,
  )

  unfoldable pub sim_gripper_grasp :
      (canceled : ℕ → Bool) (now : Widths D) (width speed : D) → List D × Bool
  sim_gripper_grasp canceled now width speed = (
    drive_rounds canceled (s.grasp_rounds_of (steps_of now width speed)) 0
        (delta_of now width speed) now.width,
    true,
  )

  -- The loops of homing over the values of the flag: the inputs that a loop writes, the values left for
  -- the next and the width; `none` where the loop goes on after them.
  abbrev pub after_input : D → Option (List D × (List Bool × D)) → Option (List D × (List Bool × D))
  after_input x none = none
  after_input x (some (xs, left)) = some (x ∷ xs, left)

  unfoldable pub close_rounds : List Bool → D → Option (List D × (List Bool × D))
  close_rounds [] cur_width = none
  close_rounds (canceled ∷ flags) cur_width =
      let next = s.minus cur_width (s.times s.default_speed s.dt) in
      let rest = after_input (max_of s.nought (s.input_of next)) (close_rounds flags next) in
      if s.less s.closed cur_width && not canceled then rest else some ([], (flags, cur_width))

  unfoldable pub open_rounds : D → List Bool → D → Option (List D × (List Bool × D))
  open_rounds max_width [] cur_width = none
  open_rounds max_width (canceled ∷ flags) cur_width =
      let next = s.plus cur_width (s.times s.default_speed s.dt) in
      let rest = after_input (min_of s.full (s.input_of next)) (open_rounds max_width flags next) in
      if s.less cur_width max_width && not canceled then rest else some ([], (flags, cur_width))

  -- The inputs that homing writes, the width that it ends with, and what it returns.
  unfoldable pub sim_gripper_homing : List Bool → Widths D → Option (List D × (D × Bool))
  sim_gripper_homing flags now = elim (close_rounds flags now.width) [
    | none ↦ none
    | some (closing, (left, low)) ↦ elim (open_rounds now.max_width left low) [
      | none ↦ none
      | some (opening, (rest, high)) ↦ some (closing ++ opening, (high, true))
    ]
  ]
