-- ===== src/Motion.antt =====
-- panda_motion_generators/base/motion_generator_base.h in franka_multi_mode_controller: a trajectory over
-- via poses, its time scaling, and the step that gives the next goal of the controller. The pose types and
-- the trajectory (`generateTrajectoryImpl`, `stepImpl`) are the derived class's, and arguments here.
pub mod Sections
pub mod Server
pub mod Joints
use franka_gazebo.Prelude.{
  ℕ, suc, ◌+◌, ◌-◌, ◌^◌, Bool, true, false, Option, none, some, List, [], ◌∷◌, if◌then◌else◌, ltb,
  length, get_elem?,
}

-- What the sources do with a `double`: `lit n` is the number n, `period` is `T`, which is 0.001.
pub record Real (D : Type 0) : Type 0 where
  pub lit : ℕ → D
  pub period : D
  pub plus : D → D → D
  pub minus : D → D → D
  pub times : D → D → D
  pub over : D → D → D
  pub pow : D → ℕ → D
  pub absolute : D → D
  pub root : D → D
  pub less : D → D → Bool
  pub at_most : D → D → Bool

pub record Generator (D Via Config : Type 0) : Type 0 where
  pub current_pose : Via
  pub end_times : List D
  pub via_poses : List Via
  pub last_config : Config
  pub current_section : ℕ
  pub scaling : D
  pub scaling_goal : D
  pub last_scaling : D
  pub scaling_progress : D
  pub scaling_increment : D
  pub t : D
  pub t_start : D

-- What `step` does: it holds where it is, or gives a goal, the progress and the time to completion.
pub data Stepped (D Goal : Type 0) : Type 0 where
  held : Stepped D Goal
  moved : Goal → D → D → Stepped D Goal

-- `back`, which is undefined for an empty vector.
abbrev pub back : {D : Type 0} → List D → Option D
back [] = none
back (x ∷ []) = some x
back (x ∷ y ∷ xs) = back (y ∷ xs)

-- `size() - 1`, of the type `size_t`.
abbrev pub size_minus_one : {Via : Type 0} → List Via → ℕ
size_minus_one [] = 2 ^ 64 - 1
size_minus_one (x ∷ xs) = length xs

abbrev pub scale : {D : Type 0} → Real D → D → D
scale r progress =
    r.plus (r.minus (r.times (r.lit 10) (r.pow progress 3)) (r.times (r.lit 15) (r.pow progress 4)))
      (r.times (r.lit 6) (r.pow progress 5))

module _ {D Via Config : Type 0} (r : Real D) where
  -- `plan` stands for `generateTrajectoryImpl`, which returns a Boolean and fills the end times.
  unfoldable pub generate_trajectory :
      (plan : Via → List Via → Config → Bool × List D) (vias : List Via) (config : Config)
      → Generator D Via Config
      → Generator D Via Config × Bool
  generate_trajectory plan vias config g =
      let (done, times) = plan g.current_pose vias config in
      (
        record g {
          via_poses = vias;
          last_config = config;
          t = r.lit 0;
          t_start = r.lit 0;
          current_section = 0;
          end_times = times;
        },
        done,
      )

  abbrev pub set_current_pose : Via → Generator D Via Config → Generator D Via Config
  set_current_pose pose g = record g { current_pose = pose }

  unfoldable pub set_time_scaling : D → ℕ → Generator D Via Config → Generator D Via Config
  set_time_scaling scaling steps g = record g {
    scaling_goal = scaling;
    last_scaling = g.scaling;
    scaling_progress = r.lit 0;
    scaling_increment = r.over (r.lit 1) (r.lit steps);
  }

  -- `start` of the base class.
  unfoldable pub start_scaling : Generator D Via Config → Generator D Via Config
  start_scaling g = record g { scaling_progress = r.lit 1; scaling = g.scaling_goal }

  -- The part of `step` that moves the scaling on.
  unfoldable pub scaled : Generator D Via Config → Generator D Via Config
  scaled g =
      let next = r.plus g.scaling_progress g.scaling_increment in
      if r.less g.scaling_progress (r.lit 1)
      then record g {
        scaling_progress = next;
        scaling =
            r.plus g.last_scaling (r.times (r.minus g.scaling_goal g.last_scaling) (scale r next));
      }
      else g

  unfoldable pub advanced : Generator D Via Config → Generator D Via Config
  advanced g = record g { t = r.plus g.t (r.times r.period g.scaling) }

  -- The next section, where `finish` is the end of the current one.
  unfoldable pub turned : D → Generator D Via Config → Generator D Via Config
  turned finish g =
      if ltb g.current_section (size_minus_one g.via_poses)
      then record g { current_section = g.current_section + 1; t_start = finish }
      else g

  module _ {Goal : Type 0} (step_impl : ℕ → D → Goal) where
    abbrev pub reported : Generator D Via Config → Option (Generator D Via Config × Stepped D Goal)
    reported g = elim (back g.end_times) [
      | none ↦ none
      | some last ↦ some (
        g,
        moved (step_impl g.current_section (r.minus g.t g.t_start)) (r.over g.t last)
            (r.minus last g.t),
      )
    ]

    abbrev pub step_in :
        Bool → D → Generator D Via Config → Option (Generator D Via Config × Stepped D Goal)
    step_in has_offset finish g =
        if r.less finish g.t
        then if has_offset
          then some (
            record g {
              t = r.minus g.t (r.times r.period g.scaling);
              scaling_progress = r.minus g.scaling_progress g.scaling_increment;
            },
            held,
          )
          else reported (turned finish g)
        else reported g

    -- `none` where an index into `end_times_` is out of range.
    unfoldable pub step :
        Bool → Generator D Via Config → Option (Generator D Via Config × Stepped D Goal)
    step has_offset g =
        let next = advanced (scaled g) in
        elim (get_elem? g.end_times g.current_section) [
          | none ↦ none
          | some finish ↦ step_in has_offset finish next
        ]
