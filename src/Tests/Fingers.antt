-- ===== src/Tests/Fingers.antt =====
-- The simulated gripper with widths and inputs in whole units, of which a round moves the fingers one.
use franka_gazebo.Prelude.{
  ◌&&◌, ℕ, zero, suc, ◌≤◌, ◌+◌, ◌-◌, ◌*◌, ◌≡◌, refl, arith, Bool, true, false, some, List, [], ◌∷◌,
  ltb, leb,
}
use franka_gazebo.SimGripper.{
  Scale, Widths, drive_rounds, sim_gripper_move, sim_gripper_grasp, sim_gripper_homing,
  close_rounds, open_rounds,
}
use franka_gazebo.SimGripper.Driving.{IsOrdered, IsDriven, sim_gripper-IsDriven}
use franka_gazebo.Gripper.{Width, Poll}
use franka_gazebo.SimGripper.Server.{
  SimServer, Event, goal_request, cancel_request, stop_write, publish, start_grasp, check, write,
  move_drive, happen, happen_all, check_round, write_round,
}
use franka_gazebo.SimGripper.Server.Cancel.{goal_request-going}
use franka_gazebo.SimGripper.Goals.{
  Claims, ClaimsReached, Ends, Runs, Homed, sim_on_execute_gripper_command, sim_execute_command,
  sim_execute_gripper_command, sim_execute-Ends,
}
use franka_gazebo.SimGripper.Homing.{Rises, lowered, IsStepping, Homes, sim_gripper_homing-Homes}

abbrev units : Scale ℕ
units = record {
  nought = 0;
  one = 1;
  full = 255;
  closed = 0;
  less = ltb;
  at_most = leb;
  plus = λ a b. a + b;
  minus = λ a b. a - b;
  times = λ a b. a * b;
  over = λ a b. a;
  negated = λ a. a;
  input_of = λ w. w * 3;
  rounds_of = λ d. d;
  grasp_rounds_of = λ d. d + 50;
  default_speed = 1;
  dt = 1;
}

abbrev narrow : Widths ℕ
narrow = record { width = 2; max_width = 80 }

abbrev cut_short : ℕ → Bool
cut_short i = leb 3 i

moved : sim_gripper_move units cut_short narrow 20 0 ≡ (9 ∷ 12 ∷ 15 ∷ [], true)
unfolding sim_gripper_move drive_rounds
moved = refl

homed :
    sim_gripper_homing units (false ∷ false ∷ false ∷ true ∷ true ∷ []) narrow
    ≡ some (3 ∷ 0 ∷ [], (0, true))
unfolding sim_gripper_homing close_rounds open_rounds
homed = refl

units-IsOrdered : IsOrdered units
units-IsOrdered = record { nought_full = refl; full_self = refl; full_nought = refl }

sim_gripper-IsDriven_example :
    IsDriven units cut_short 18 (sim_gripper_move units cut_short narrow 20 0).0
    × IsDriven units cut_short 68 (sim_gripper_grasp units cut_short narrow 20 0).0
sim_gripper-IsDriven_example = sim_gripper-IsDriven units units-IsOrdered cut_short narrow 20 0

abbrev small : Widths ℕ
small = record { width = 2; max_width = 3 }

small-IsStepping : IsStepping units 3 2 3 2
small-IsStepping = record { closes = refl; opens = small-Rises }
  where
    small-Rises : (k : ℕ) → k ≤ 2 → Rises units 3 3 (lowered units k 2)
    small-Rises zero h = (1, omega arith, refl)
    small-Rises (suc zero) h = (2, omega arith, refl)
    small-Rises (suc (suc zero)) h = (3, omega arith, refl)
    small-Rises (suc (suc (suc k))) h = absurd (omega arith)

abbrev unset : List Bool
unset = false ∷ false ∷ false ∷ false ∷ false ∷ false ∷ false ∷ []

sim_gripper_homing-Homes_example : Homes units 3 unset (sim_gripper_homing units unset small)
sim_gripper_homing-Homes_example =
    sim_gripper_homing-Homes units small 2 3 unset small-IsStepping (omega arith)

abbrev server : SimServer ℕ
server = record {
  input = 6;
  finger = 1;
  current = narrow;
  is_canceled = false;
  drives = move_drive units narrow 20 1 ∷ [];
}

-- The first loop has passed the test when the flag is set, and a grasp starts afterwards.
abbrev caught : SimServer ℕ
caught = happen units 80 (check 0) server

abbrev bustle : List (Event ℕ)
bustle =
    publish ∷ write 0 ∷ start_grasp 30 1 ∷ stop_write ∷ check 0 ∷ write 0 ∷ check 1 ∷ write 1 ∷ []

rounds_seen : (happen_all units 80 (check 0 ∷ write 0 ∷ check 0 ∷ write 0 ∷ []) server).input ≡ 12
unfolding happen check_round write_round
rounds_seen = refl

-- The input that is written after a cancellation.
written_late : (happen_all units 80 (cancel_request ∷ write 0 ∷ []) caught).input ≡ 9
unfolding happen check_round write_round
written_late = refl

goal_request-going_example :
    (happen_all units 80 (cancel_request ∷ goal_request ∷ check 0 ∷ write 0 ∷ []) server).input ≡ 9
goal_request-going_example =
    goal_request-going units 80 server 0 (move_drive units narrow 20 1) 17 refl refl

abbrev waiting : Poll ℕ
waiting = record { is_ready = false; is_ok = true; is_canceling = false; width = 3 }

abbrev ready : Poll ℕ
ready = record { is_ready = true; is_ok = true; is_canceling = true; width = 4 }

instance abbrev whole_width : Width ℕ
whole_width = record {
  nought = 0;
  twice = λ w. w + w;
  less = ltb;
  at_least = λ a b. leb b a;
  close = λ a b. leb a b && leb b a;
}

sim_execute-Ends_example :
    Ends Claims (
      sim_execute_command
        (waiting ∷ ready ∷ [])
        true
        (sim_gripper_move units cut_short narrow 10 0).1)
    × Ends Claims (
        sim_execute_command
          (waiting ∷ ready ∷ [])
          true
          (sim_gripper_grasp units cut_short narrow 10 0).1)
    × Homed
        (λ value. Ends Claims (sim_execute_command (waiting ∷ ready ∷ []) true value))
        (sim_gripper_homing units unset narrow)
    × Runs
        (λ value.
          Ends ClaimsReached (sim_execute_gripper_command (waiting ∷ ready ∷ []) true value))
        (sim_on_execute_gripper_command units cut_short 10 narrow)
sim_execute-Ends_example =
    sim_execute-Ends (waiting ∷ []) ready [] true units cut_short unset narrow 10 0
      ((refl, refl, refl), tt) refl
