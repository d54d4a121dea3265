-- ===== src/Motion/Joints.antt =====
-- panda_motion_generators/base/poly_c2_joint_motion_generator.h and poly_c2_joint_motion_generator_base.h:
-- the check of a goal over joint poses, and the end times of its trajectory. The coefficients of the
-- polynomials, which Eigen solves for, are left out. A pose is the list of its joints.
pub mod Limits
pub mod Times
pub mod Accepted
use franka_gazebo.Prelude.{
  ℕ, zero, suc, ◌+◌, ◌-◌, Bool, true, false, ◌||◌, Option, none, some, List, [], ◌∷◌, ◌++◌,
  if◌then◌else◌, ◌==◌, leb, length, get_elem?,
}
use franka_gazebo.Motion.{Real, back, size_minus_one}

abbrev pub Pose : Type 0 → Type 0
Pose D = List D

-- `q_min_`, `q_max_`, `qD_max_` and `qDD_max_`.
pub record JointLimits (D : Type 0) : Type 0 where
  pub q_min : List D
  pub q_max : List D
  pub qd_max : List D
  pub qdd_max : List D

-- The texts of `error_`, with the numbers that stand in them.
pub data GoalError : Type 0 where
  bad_scale : GoalError
  violates : (pose joint : ℕ) → GoalError

module _ {D : Type 0} (r : Real D) (limits : JointLimits D) where
  abbrev pub is_bad_scale : D → Bool
  is_bad_scale v_scale = r.at_most v_scale (r.lit 0) || r.less (r.lit 1) v_scale

  abbrev pub is_outside : (q low high : D) → Bool
  is_outside q low high = r.less high q || r.less q low

  -- The loop over the joints of the pose `i`, from the joint `j`.
  unfoldable pub check_joints : (i j : ℕ) (q low high : List D) → Option GoalError
  check_joints i j (q ∷ qs) (low ∷ lows) (high ∷ highs) =
      if is_outside q low high then some (violates i j) else check_joints i (j + 1) qs lows highs
  check_joints i j [] lows highs = none
  check_joints i j (q ∷ qs) [] highs = none
  check_joints i j (q ∷ qs) (low ∷ lows) [] = none

  -- The loop over the via poses, from the pose `i`.
  unfoldable pub check_poses : (i : ℕ) (vias : List (Pose D)) → Option GoalError
  check_poses i [] = none
  check_poses i (q ∷ vias) = elim (check_joints i 0 q limits.q_min limits.q_max) [
    | some e ↦ some e
    | none ↦ check_poses (i + 1) vias
  ]

  -- `none` for `true`, else the error.
  unfoldable pub check_goal : D → List (Pose D) → Option GoalError
  check_goal v_scale vias = if is_bad_scale v_scale then some bad_scale else check_poses 0 vias

  -- `std::max`.
  abbrev pub max_of : D → D → D
  max_of a b = if r.less a b then b else a

  -- The loop over the joints in `getTime`.
  unfoldable pub leg_time : (v_scale t : D) (start finish qd qdd : List D) → D
  leg_time v_scale t (a ∷ start) (b ∷ finish) (v ∷ qd) (w ∷ qdd) =
      let s = r.absolute (r.minus b a) in
      let by_speed = r.over (r.times (r.lit 15) s) (r.times (r.lit 8) (r.times v_scale v)) in
      let by_acceleration = r.root (r.over (r.times (r.lit 10) s) (r.times (r.root (r.lit 3)) w)) in
      leg_time v_scale (max_of t (max_of by_speed by_acceleration)) start finish qd qdd
  leg_time v_scale t [] finish qd qdd = t
  leg_time v_scale t (a ∷ start) [] qd qdd = t
  leg_time v_scale t (a ∷ start) (b ∷ finish) [] qdd = t
  leg_time v_scale t (a ∷ start) (b ∷ finish) (v ∷ qd) [] = t

  abbrev pub time_between : D → Pose D → Pose D → D
  time_between v_scale start finish =
      leg_time v_scale (r.over (r.lit 5) (r.lit 100)) start finish limits.qd_max limits.qdd_max

  abbrev pub start_of : (current : Pose D) (vias : List (Pose D)) (i : ℕ) → Option (Pose D)
  start_of current vias zero = some current
  start_of current vias (suc i) = get_elem? vias i

  -- `getTime`; `none` where an index is out of range.
  unfoldable pub get_time :
      (current : Pose D) (vias : List (Pose D)) (v_scale : D) (i : ℕ) → Option D
  get_time current vias v_scale i = elim (start_of current vias i) [
    | none ↦ none
    | some start ↦ elim (get_elem? vias i) [
      | none ↦ none
      | some finish ↦ some (time_between v_scale start finish)
    ]
  ]

  -- The end times that `getEndVel` adds for the section `i`.
  unfoldable pub get_end_vel :
      (current : Pose D) (end_times : List D) (vias : List (Pose D)) (v_scale : D) (i : ℕ)
      → Option (List D)
  get_end_vel current end_times vias v_scale i =
      if i == size_minus_one vias then some end_times else elim (back end_times) [
        | none ↦ none
        | some t ↦ elim (get_time current vias v_scale (i + 1)) [
          | none ↦ none
          | some leg ↦ some (end_times ++ r.plus t leg ∷ [])
        ]
      ]

  -- The loop of `generateTrajectoryImpl` over the sections, of which `left` are left.
  unfoldable pub fill_times :
      (current : Pose D) (vias : List (Pose D)) (v_scale : D) (left i : ℕ) (end_times : List D)
      → Option (List D)
  fill_times current vias v_scale zero i end_times = some end_times
  fill_times current vias v_scale (suc left) i end_times =
      elim (get_end_vel current end_times vias v_scale i) [
        | none ↦ none
        | some more ↦ fill_times current vias v_scale left (i + 1) more
      ]

  unfoldable pub generate_times :
      (current : Pose D) (vias : List (Pose D)) (v_scale : D) → Option (Bool × List D)
  generate_times current vias v_scale =
      if is_bad_scale v_scale then some (false, []) else elim (get_time current vias v_scale 0) [
        | none ↦ none
        | some t ↦ elim (fill_times current vias v_scale (length vias) 0 (t ∷ [])) [
          | none ↦ none
          | some times ↦ some (true, times)
        ]
      ]
