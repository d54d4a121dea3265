-- ===== src/Motion/Joints/Limits.antt =====
-- What the check of a goal over joint poses in poly_c2_joint_motion_generator.h accepts.
use franka_gazebo.Prelude.{
  ℕ, zero, suc, ◌+◌, ◌≡◌, refl, ◌⊎◌, ◌||◌, arith, Bool, true, false, Option, none, some, List, [],
  ◌∷◌, All, Bool-cases, inl, inr, subst, sym, ap, ◌∙◌,
}
use franka_gazebo.Motion.{Real}
use franka_gazebo.Motion.Joints.{
  Pose, JointLimits, GoalError, bad_scale, violates, is_bad_scale, is_outside, check_joints,
  check_poses, check_goal,
}

-- The poses in front of the pose `i`.
abbrev pub take : {A : Type 0} → ℕ → List A → List A
take zero xs = []
take (suc i) [] = []
take (suc i) (x ∷ xs) = x ∷ take i xs

or_true : (a b : Bool) → a || b ≡ true → (a ≡ true) ⊎ (b ≡ true)
or_true true b h = inl refl
or_true false b h = inr h

or_false : (a b : Bool) → a || b ≡ false → (a ≡ false) × (b ≡ false)
or_false a b h = ground arith

zeros : (i k : ℕ) → violates i (0 + k) ≡ violates (i + 0) k
zeros i k = ground arith

module _ {D : Type 0} (r : Real D) (limits : JointLimits D) where
  -- No joint compares above its upper limit or below its lower one.

  abbrev pub AreWithin : (q low high : List D) → Type 0
  AreWithin (q ∷ qs) (low ∷ lows) (high ∷ highs) =
      (r.less high q ≡ false) × (r.less q low ≡ false) × AreWithin qs lows highs
  AreWithin [] lows highs = Unit
  AreWithin (q ∷ qs) [] highs = Unit
  AreWithin (q ∷ qs) (low ∷ lows) [] = Unit

  abbrev pub IsWithin : Pose D → Type 0
  IsWithin q = AreWithin q limits.q_min limits.q_max

  -- The joint `j` compares above its upper limit or below its lower one.
  abbrev pub OutsideAt : (j : ℕ) (q low high : List D) → Type 0
  OutsideAt zero (q ∷ qs) (low ∷ lows) (high ∷ highs) =
      (r.less high q ≡ true) ⊎ (r.less q low ≡ true)
  OutsideAt (suc j) (q ∷ qs) (low ∷ lows) (high ∷ highs) = OutsideAt j qs lows highs
  OutsideAt j [] lows highs = ⊥
  OutsideAt j (q ∷ qs) [] highs = ⊥
  OutsideAt j (q ∷ qs) (low ∷ lows) [] = ⊥

  -- The joint `j` of the pose `i` does.
  abbrev pub PoseOutsideAt : (i j : ℕ) → List (Pose D) → Type 0
  PoseOutsideAt i j [] = ⊥
  PoseOutsideAt zero j (q ∷ vias) = OutsideAt j q limits.q_min limits.q_max
  PoseOutsideAt (suc i) j (q ∷ vias) = PoseOutsideAt i j vias

  -- The scale compares as at most 0 or as above 1.
  abbrev pub IsRefused : D → Type 0
  IsRefused v_scale = (r.at_most v_scale (r.lit 0) ≡ true) ⊎ (r.less (r.lit 1) v_scale ≡ true)

  abbrev pub IsScale : D → Type 0
  IsScale v_scale = (r.at_most v_scale (r.lit 0) ≡ false) × (r.less (r.lit 1) v_scale ≡ false)

  -- What each answer of the check says.
  abbrev pub Judges : D → List (Pose D) → Option GoalError → Type 0
  Judges v_scale vias none = IsScale v_scale × All IsWithin vias
  Judges v_scale vias (some bad_scale) = IsRefused v_scale
  Judges v_scale vias (some (violates i j)) =
      IsScale v_scale × PoseOutsideAt i j vias × All IsWithin (take i vias)

  abbrev JudgesJoints : (i j : ℕ) (q low high : List D) → Option GoalError → Type 0
  JudgesJoints i j q low high none = AreWithin q low high
  JudgesJoints i j q low high (some e) = (k : ℕ) × (e ≡ violates i (j + k)) × OutsideAt k q low high

  abbrev JudgesPoses : (i : ℕ) → List (Pose D) → Option GoalError → Type 0
  JudgesPoses i vias none = All IsWithin vias
  JudgesPoses i vias (some e) =
      (k : ℕ) × (j : ℕ) × (e ≡ violates (i + k) j)
      × PoseOutsideAt k j vias
      × All IsWithin (take k vias)

  later_joint :
      (i j : ℕ) (q low high : D) (qs lows highs : List D) (o : Option GoalError)
      → is_outside r limits q low high ≡ false
      → JudgesJoints i (j + 1) qs lows highs o
      → JudgesJoints i j (q ∷ qs) (low ∷ lows) (high ∷ highs) o
  later_joint i j q low high qs lows highs none e h = ground (arith, e, h)
  later_joint i j q low high qs lows highs (some x) e (k, w, h) =
      (suc k, w ∙ ap (violates i) (omega arith), h)

  check_joints-Judges :
      (i j : ℕ) (q low high : List D)
      → JudgesJoints i j q low high (check_joints r limits i j q low high)
  unfolding check_joints
  check_joints-Judges i j [] low high = tt
  check_joints-Judges i j (q ∷ qs) [] high = tt
  check_joints-Judges i j (q ∷ qs) (low ∷ lows) [] = tt
  check_joints-Judges i j (q ∷ qs) (low ∷ lows) (high ∷ highs) =
      elim (Bool-cases (is_outside r limits q low high)) [
        | inl o ↦ rw o (0, ap (violates i) (omega arith), or_true (r.less high q) (r.less q low) o)
        | inr o ↦ rw o (
            later_joint i j q low high qs lows highs (check_joints r limits i (j + 1) qs lows highs)
              o (check_joints-Judges i (j + 1) qs lows highs))
      ]

  later_pose :
      (i : ℕ) (q : Pose D) (vias : List (Pose D)) (o : Option GoalError)
      → IsWithin q
      → JudgesPoses (i + 1) vias o
      → JudgesPoses i (q ∷ vias) o
  later_pose i q vias none w h = (w, h)
  later_pose i q vias (some x) w (k, j, e, h, all) =
      (suc k, j, e ∙ ap (λ n. violates n j) (omega arith), h, (w, all))

  pose-Judges :
      (i : ℕ) (q : Pose D) (vias : List (Pose D)) (o rest : Option GoalError)
      → JudgesJoints i 0 q limits.q_min limits.q_max o
      → JudgesPoses (i + 1) vias rest
      → JudgesPoses i (q ∷ vias) (elim o [ some e ↦ some e | none ↦ rest ])
  pose-Judges i q vias none rest w h = later_pose i q vias rest w h
  pose-Judges i q vias (some e) rest (k, w, o) h = (0, k, w ∙ zeros i k, o, tt)

  check_poses-Judges :
      (i : ℕ) (vias : List (Pose D)) → JudgesPoses i vias (check_poses r limits i vias)
  unfolding check_poses
  check_poses-Judges i [] = tt
  check_poses-Judges i (q ∷ vias) =
      pose-Judges i q vias (check_joints r limits i 0 q limits.q_min limits.q_max)
        (check_poses r limits (i + 1) vias) (check_joints-Judges i 0 q limits.q_min limits.q_max)
        (check_poses-Judges (i + 1) vias)

  from-Judges :
      (v_scale : D) (vias : List (Pose D)) (o : Option GoalError)
      → IsScale v_scale
      → JudgesPoses 0 vias o
      → Judges v_scale vias o
  from-Judges v_scale vias none b h = (b, h)
  from-Judges v_scale vias (some e) b (k, j, w, o, all) =
      subst (λ x. Judges v_scale vias (some x)) (sym (w ∙ ap (λ n. violates n j) (omega arith)))
        (b, o, all)

  -- The check accepts a goal only if its `v_scale` compares neither as at most 0 nor as above 1 and no joint
  -- of a via pose compares as above its upper limit or below its lower one (a NaN compares as neither).
  -- If it refuses the scale, that one compares as at most 0 or as above 1; if it names a joint of a pose,
  -- the scale is in order, that joint compares as outside of one of its limits, and no joint of a pose in
  -- front of that one does.
  pub check_goal-Judges :
      (v_scale : D) (vias : List (Pose D)) → Judges v_scale vias (check_goal r limits v_scale vias)
  unfolding check_goal
  check_goal-Judges v_scale vias = elim (Bool-cases (is_bad_scale r limits v_scale)) [
    | inl b ↦ rw b (or_true (r.at_most v_scale (r.lit 0)) (r.less (r.lit 1) v_scale) b)
    | inr b ↦ rw b (
        from-Judges v_scale vias (check_poses r limits 0 vias)
          (or_false (r.at_most v_scale (r.lit 0)) (r.less (r.lit 1) v_scale) b)
          (check_poses-Judges 0 vias))
  ]
