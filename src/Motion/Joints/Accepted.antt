-- ===== src/Motion/Joints/Accepted.antt =====
-- An accepted goal of poly_c2_joint_motion_generator.h in the server of motion_generator_ros_interface.h.
use franka_gazebo.Prelude.{
  ℕ, ◌≡◌, refl, arith, Bool, true, false, Option, none, some, List, [], ◌∷◌, All, length, ap, ◌∙◌,
}
use franka_gazebo.Motion.{Real}
use franka_gazebo.Motion.Server.{Server, Request, Round, begin, handle_goal, execute_rounds}
use franka_gazebo.Motion.Server.Safety.{IsUndisturbed, Runs, execute_goal-Runs}
use franka_gazebo.Motion.Joints.{
  Pose, JointLimits, GoalError, is_bad_scale, check_goal, generate_times,
}
use franka_gazebo.Motion.Joints.Times.{ends, length-ends, good_scale_times}

abbrev pub where_defined : {D : Type 0} → Option (Bool × List D) → Bool × List D
where_defined none = (false, [])
where_defined (some p) = p

abbrev pub is_none : Option GoalError → Bool
is_none none = true
is_none (some e) = false

module _ {D : Type 0} (r : Real D) (limits : JointLimits D) where
  -- `generateTrajectoryImpl` as the server calls it, where it is defined.
  abbrev pub joint_plan : Pose D → List (Pose D) → D → Bool × List D
  joint_plan current vias v_scale = where_defined (generate_times r limits current vias v_scale)

  -- The goal as the callbacks of the derived class find it, with the pose that the service reports.
  abbrev pub joint_request :
      (v_scale : D) (vias : List (Pose D)) → Option (Pose D) → Request (Pose D) D
  joint_request v_scale vias current = record {
    is_accepted = is_none (check_goal r limits v_scale vias);
    current = current;
    vias = vias;
    config = v_scale;
  }

  good_scale :
      (v_scale : D) (vias : List (Pose D))
      → check_goal r limits v_scale vias ≡ none
      → is_bad_scale r limits v_scale ≡ false
  unfolding check_goal
  good_scale v_scale vias e = ground arith

  planned :
      (v_scale : D) (pose q : Pose D) (vias : List (Pose D))
      → check_goal r limits v_scale (q ∷ vias) ≡ none
      → joint_plan pose (q ∷ vias) v_scale ≡ (true, ends r limits v_scale pose (q ∷ vias))
  planned v_scale pose q vias e =
      ap where_defined
        (good_scale_times r limits v_scale pose (q ∷ vias) (good_scale v_scale (q ∷ vias) e))

  module _ {Goal : Type 0} (step_impl : ℕ → D → Goal) where
    -- A goal over at least one joint pose that passes the check is planned and runs safely, if the current
    -- pose is known: the server accepts it, and no round indexes its end times or poses out of range,
    -- whatever cancellations, time scalings and other calls come, except for a new goal.
    pub joint_goal-Runs :
        (v_scale : D) (pose q : Pose D) (vias : List (Pose D)) (s : Server D (Pose D) D)
        (rounds : List (Round D (Pose D) D))
        → check_goal r limits v_scale (q ∷ vias) ≡ none
        → All IsUndisturbed rounds
        → let request = joint_request v_scale (q ∷ vias) (some pose) in
          let accepted = handle_goal r joint_plan request s in
          (accepted.1 ≡ true)
          × Runs
              (begin r accepted.0)
              (execute_rounds r step_impl joint_plan rounds (begin r accepted.0))
    joint_goal-Runs v_scale pose q vias s rounds e quiet =
        let p = planned v_scale pose q vias e in
        execute_goal-Runs r joint_plan step_impl (joint_request v_scale (q ∷ vias) (some pose)) pose
          s rounds (ap is_none e) refl (ap (λ x. x.0) p)
          (ap (λ x. length x.1) p ∙ length-ends r limits v_scale pose (q ∷ vias)) (omega arith)
          quiet
