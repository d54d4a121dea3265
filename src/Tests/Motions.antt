-- ===== src/Tests/Motions.antt =====
-- A motion generator with two joints and whole numbers for its times and positions.
use Prim.Native.Nat.{◌/◌}
use franka_gazebo.Prelude.{
  ℕ, ◌+◌, ◌-◌, ◌*◌, ◌^◌, ◌≡◌, refl, arith, Bool, true, false, none, some, List, [], ◌∷◌, All, ltb,
  leb, pos, map, inl,
}
use franka_gazebo.Motion.{Real, start_scaling}
use franka_gazebo.Motion.Server.{
  idle, moving, Server, Request, scaling, touched, Round, begin, handle_goal, execute_rounds,
  take_scaling,
}
use franka_gazebo.Motion.Server.Safety.{IsUndisturbed, Runs, execute_goal-Runs}
use franka_gazebo.Motion.Server.Stall.{Stalls, handle_goal-Stalls}
use franka_gazebo.Motion.Server.Finish.{alone, Finishes, execute_goal-Finishes}
use franka_gazebo.Motion.Joints.{
  Pose, JointLimits, violates, check_goal, check_poses, check_joints, generate_times, get_time,
  fill_times, get_end_vel, leg_time,
}
use franka_gazebo.Motion.Joints.Limits.{Judges, check_goal-Judges}
use franka_gazebo.Motion.Joints.Times.{times_along, generate_times-eq-times_along}
use franka_gazebo.Motion.Joints.Accepted.{joint_plan, joint_request, joint_goal-Runs}

abbrev whole : Real ℕ
whole = record {
  lit = λ n. n;
  period = 1;
  plus = λ a b. a + b;
  minus = λ a b. a - b;
  times = λ a b. a * b;
  over = λ a b. a / b;
  pow = λ a n. a ^ n;
  absolute = λ a. a;
  root = λ a. a;
  less = ltb;
  at_most = leb;
}

abbrev limits : JointLimits ℕ
limits = record {
  q_min = 1 ∷ 1 ∷ [];
  q_max = 9 ∷ 9 ∷ [];
  qd_max = 1 ∷ 1 ∷ [];
  qdd_max = 1 ∷ 1 ∷ [];
}

abbrev here : Pose ℕ
here = 1 ∷ 1 ∷ []

abbrev there : Pose ℕ
there = 3 ∷ 2 ∷ []

abbrev far : Pose ℕ
far = 4 ∷ 6 ∷ []

times : generate_times whole limits here (there ∷ far ∷ []) 1 ≡ some (true, 6 ∷ 19 ∷ [])
unfolding generate_times get_time fill_times get_end_vel leg_time
times = refl

judged : check_goal whole limits 1 (there ∷ (9 ∷ 10 ∷ []) ∷ []) ≡ some (violates 1 1)
unfolding check_goal check_poses check_joints
judged = refl

check_goal-Judges_example :
    Judges whole limits 1 (there ∷ far ∷ []) (check_goal whole limits 1 (there ∷ far ∷ []))
check_goal-Judges_example = check_goal-Judges whole limits 1 (there ∷ far ∷ [])

generate_times-eq-times_along_example :
    generate_times whole limits here (there ∷ far ∷ []) 1
    ≡ times_along whole limits 1 here (there ∷ far ∷ [])
generate_times-eq-times_along_example =
    generate_times-eq-times_along whole limits 1 here (there ∷ far ∷ [])

-- Each goal of the controller is the section and the time in it.
abbrev goal_at : ℕ → ℕ → ℕ × ℕ
goal_at section t = (section, t)

abbrev resting : Server ℕ (Pose ℕ) ℕ
resting = record {
  base = record {
    current_pose = here;
    end_times = 2 ∷ 4 ∷ [];
    via_poses = there ∷ far ∷ [];
    last_config = 1;
    current_section = 0;
    scaling = 1;
    scaling_goal = 1;
    last_scaling = 1;
    scaling_progress = 1;
    scaling_increment = 0;
    t = 0;
    t_start = 0;
  };
  state = idle;
  abort = false;
  check_trajectory = false;
  contact = false;
  has_offset = false;
  start_recovery = false;
  time_scaling = 1;
  steps = pos 0;
  progress = 0;
  time_to_completion = 0;
}

-- A round with calls, and one without.
abbrev busy : List (Round ℕ (Pose ℕ) ℕ)
busy =
    record {
      before_update = scaling 2 (pos 1) ∷ [];
      is_canceling = false;
      before_step = touched ∷ [];
    }
    ∷ alone false
    ∷ []

busy-IsUndisturbed : All IsUndisturbed busy
busy-IsUndisturbed =
    (record { updates = (tt, tt); steps = (tt, tt) }, (record { updates = tt; steps = tt }, tt))

accepted : check_goal whole limits 1 (there ∷ far ∷ []) ≡ none
unfolding check_goal check_poses check_joints
accepted = refl

joint_goal-Runs_example :
    ((handle_goal whole
        (joint_plan whole limits)
        (joint_request whole limits 1 (there ∷ far ∷ []) (some here))
        resting).1
      ≡ true)
    × Runs
        (begin whole
          (handle_goal whole
            (joint_plan whole limits)
            (joint_request whole limits 1 (there ∷ far ∷ []) (some here))
            resting).0)
        (execute_rounds whole goal_at (joint_plan whole limits) busy (
          begin whole
            (handle_goal whole
              (joint_plan whole limits)
              (joint_request whole limits 1 (there ∷ far ∷ []) (some here))
              resting).0))
joint_goal-Runs_example =
    joint_goal-Runs whole limits goal_at 1 here there (far ∷ []) resting busy accepted
      busy-IsUndisturbed

abbrev no_plan : Pose ℕ → List (Pose ℕ) → ℕ → Bool × List ℕ
no_plan current vias v_scale = (true, 3 ∷ [])

abbrev plain_request : Request (Pose ℕ) ℕ
plain_request = record { is_accepted = true; current = some here; vias = there ∷ []; config = 1 }

execute_goal-Runs_example :
    ((handle_goal whole no_plan plain_request resting).1 ≡ true)
    × Runs (begin whole (handle_goal whole no_plan plain_request resting).0) (
        execute_rounds whole goal_at no_plan busy
          (begin whole (handle_goal whole no_plan plain_request resting).0))
execute_goal-Runs_example =
    execute_goal-Runs whole no_plan goal_at plain_request here resting busy refl refl refl refl
      (omega arith) busy-IsUndisturbed

handle_goal-Stalls_example :
    ((handle_goal whole no_plan
        (record plain_request { is_accepted = false })
        (record resting { state = moving })).1
      ≡ false)
    × Stalls (
        execute_rounds whole goal_at no_plan busy
          (handle_goal whole no_plan
            (record plain_request { is_accepted = false })
            (record resting { state = moving })).0)
handle_goal-Stalls_example =
    handle_goal-Stalls whole no_plan goal_at (record plain_request { is_accepted = false })
      (record resting { state = moving }) busy (inl refl) refl busy-IsUndisturbed (refl, (refl, tt))

-- The steps to the time 4.
abbrev no_cancels : List Bool
no_cancels = false ∷ false ∷ false ∷ false ∷ false ∷ false ∷ []

execute_goal-Finishes_example :
    Finishes no_cancels
      (execute_rounds whole goal_at no_plan (map alone no_cancels) (begin whole resting))
unfolding begin start_scaling take_scaling
execute_goal-Finishes_example =
    execute_goal-Finishes whole goal_at no_plan 4 resting 4 no_cancels refl
      (record { section = omega arith; timed = refl }) refl refl (omega arith)
