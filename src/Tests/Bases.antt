-- ===== src/Tests/Bases.antt =====
-- A controller with a number for its pose and its parameters, as it is started and gets targets.
use franka_gazebo.Prelude.{
  ℕ, ◌+◌, arith, Bool, true, false, none, List, [], ◌∷◌, Option, none, some, if◌then◌else◌, ltb,
}
use franka_gazebo.ControllerBase.{
  PandaControllerBase, set_desired_pose_buffered, start, compute_base_tau,
}
use franka_gazebo.ControllerBase.Moving.{cycles, MovesTo, cycles-MovesTo, start-cycles}
use franka_gazebo.ControllerBase.Ros.Callbacks.{Taken, callbacks, desired_pose_callback-Taken}

abbrev fresh : PandaControllerBase ℕ ℕ
fresh = record {
  parameters = record { buf = 7; content = 0; needs_update = true };
  desired = record { buf = 5; content = 0; needs_update = true };
  current = 0;
  last_desired = 0;
  move_timeout = 3;
  has_offset = false;
  error = true;
}

-- The poses that four cycles find; the second of them finds an offset.
abbrev later : List (ℕ × Bool)
later = (11, false) ∷ (12, true) ∷ (13, false) ∷ (14, false) ∷ []

cycles-MovesTo_example :
    MovesTo 20 false (cycles ((10, false) ∷ later) (set_desired_pose_buffered 20 (start 10 fresh)))
unfolding start
cycles-MovesTo_example =
    cycles-MovesTo 20 10 false later (start 10 fresh) (ground arith) (omega arith)

start-cycles_example : MovesTo 10 false (cycles later (start 10 fresh))
start-cycles_example = start-cycles 10 later fresh (omega arith)

-- A message is accepted if it is at most 9 above the current pose.
abbrev near : ℕ → ℕ → Option ℕ
near current m = if ltb m (current + 10) then some m else none

desired_pose_callback-Taken_example :
    Taken fresh 11 true
      (some 8)
      true
      (compute_base_tau 11 true (callbacks near (8 ∷ 30 ∷ []) fresh))
desired_pose_callback-Taken_example =
    desired_pose_callback-Taken near (8 ∷ 30 ∷ []) 11 true fresh (omega arith)
