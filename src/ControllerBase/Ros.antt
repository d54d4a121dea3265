-- ===== src/ControllerBase/Ros.antt =====
-- multi_mode_controller/base/panda_controller_ros_interface.h in franka_multi_mode_controller: the topics of a
-- controller and their callbacks. What the derived class makes of a message (`desiredPoseCallbackImpl`,
-- `setParametersCallbackImpl`) is an argument.
pub mod Topics
pub mod Callbacks
use franka_gazebo.Prelude.{
  ℕ, zero, suc, ◌+◌, Bool, true, false, Option, none, some, List, [], ◌∷◌, ◌++◌, if◌then◌else◌,
  ◌==◌, Name, codes, length,
}
use franka_gazebo.ControllerBase.{
  PandaControllerBase, set_desired_pose_buffered, set_parameters_buffered, start, stop,
}

abbrev pub after_char : ℕ → Option Name → Option Name
after_char c none = none
after_char c (some t) = some (c ∷ t)

-- `find` and `replace` for the first "&" of the resource.
unfoldable pub replace_first : Name → Option Name
replace_first [] = none
replace_first (c ∷ s) =
    if c == b'&' then some (codes "_and_" ++ s) else after_char c (replace_first s)

-- The `while` loop, with fuel.
unfoldable pub replace_all : ℕ → Name → Name
replace_all zero s = s
replace_all (suc f) s = elim (replace_first s) [ none ↦ s | some t ↦ replace_all f t ]

-- The prefix of the topics; a round of the loop takes an "&" away.
unfoldable pub topic_prefix : (resource name : Name) → Name
topic_prefix resource name = replace_all (length resource + 1) resource ++ codes "/" ++ name

unfoldable pub desired_pose_topic : (resource name : Name) → Name
desired_pose_topic resource name = topic_prefix resource name ++ codes "/desired_pose"

unfoldable pub parameters_topic : (resource name : Name) → Name
parameters_topic resource name = topic_prefix resource name ++ codes "/parameters"

module _ {Pose Parameters Message : Type 0} where
  unfoldable pub desired_pose_callback :
      (impl : Pose → Message → Option Pose)
      → Message
      → PandaControllerBase Pose Parameters
      → PandaControllerBase Pose Parameters
  desired_pose_callback impl msg c = elim (impl c.current msg) [
    | some p ↦ set_desired_pose_buffered p c
    | none ↦ record c { error = true }
  ]

  -- With the answer of the callback.
  unfoldable pub set_parameters_callback :
      (impl : Parameters → Message → Option Parameters)
      → Message
      → PandaControllerBase Pose Parameters
      → PandaControllerBase Pose Parameters × Bool
  set_parameters_callback impl msg c = elim (impl c.parameters.buf msg) [
    | some p ↦ (set_parameters_buffered p c, true)
    | none ↦ (c, false)
  ]

-- `init_`, where the derived class has default parameters and answers `initImpl`.
unfoldable pub init_base :
    {Pose Parameters : Type 0} (defaults : Parameters) (done : Bool)
    → PandaControllerBase Pose Parameters
    → PandaControllerBase Pose Parameters × Bool
init_base defaults done c = (set_parameters_buffered defaults c, done)
