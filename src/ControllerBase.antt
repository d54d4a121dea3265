-- ===== src/ControllerBase.antt =====
-- multi_mode_controller/include/multi_mode_controller/utils/buffered.h and base/panda_controller_base.h in
-- franka_multi_mode_controller: what all controllers for one or several arms share. A target comes from
-- another thread through a buffer. The pose of the arms, the offset and the torques are the derived
-- class's: the pose and `hasOffsetImpl` are arguments, and the torques are computed from the result.
pub mod Moving
pub mod Ros
use franka_gazebo.Prelude.{
  ℕ, ◌+◌, ◌^◌, ◌-◌, Bool, true, false, ◌||◌, Option, none, some, ltb, if◌then◌else◌,
}

pub record Buffered (T : Type 0) : Type 0 where
  pub buf : T
  pub content : T
  pub needs_update : Bool

module _ {T : Type 0} where
  unfoldable pub set_buffer : T → Buffered T → Buffered T
  set_buffer t b = record b { needs_update = true; buf = t }

  unfoldable pub update_buffer : Buffered T → Buffered T
  update_buffer b = if b.needs_update then record b { needs_update = false; content = b.buf } else b

pub record PandaControllerBase (Pose Parameters : Type 0) : Type 0 where
  pub parameters : Buffered Parameters
  pub desired : Buffered Pose
  pub current : Pose
  pub last_desired : Pose
  pub move_timeout : ℕ
  pub has_offset : Bool
  pub error : Bool

-- `++move_timeout_`, an `int` of 32 bits that is never negative here; undefined where it overflows.
abbrev pub incremented : ℕ → Option ℕ
incremented n = if ltb n (2 ^ 31 - 1) then some (n + 1) else none

module _ {Pose Parameters : Type 0} where
  unfoldable pub set_desired_pose_buffered :
      Pose → PandaControllerBase Pose Parameters → PandaControllerBase Pose Parameters
  unfolding set_buffer
  set_desired_pose_buffered p c = record c { desired = set_buffer p c.desired }

  unfoldable pub set_parameters_buffered :
      Parameters → PandaControllerBase Pose Parameters → PandaControllerBase Pose Parameters
  unfolding set_buffer
  set_parameters_buffered p c = record c { parameters = set_buffer p c.parameters }

  -- `pose` is what `getCurrentPoseImpl` gives.
  unfoldable pub start :
      Pose → PandaControllerBase Pose Parameters → PandaControllerBase Pose Parameters
  unfolding set_buffer update_buffer
  start pose c = record c {
    error = false;
    move_timeout = 3;
    current = pose;
    has_offset = false;
    desired = update_buffer (set_buffer pose c.desired);
  }

  unfoldable pub stop : PandaControllerBase Pose Parameters → PandaControllerBase Pose Parameters
  stop c = record c { error = false; move_timeout = 3 }

  -- The part of `computeTau_` behind the increment, which gave `n`.
  abbrev pub take_target :
      ℕ → PandaControllerBase Pose Parameters → PandaControllerBase Pose Parameters
  take_target n c =
      if c.desired.needs_update
      then record c {
        last_desired = c.desired.content;
        desired = update_buffer c.desired;
        move_timeout = 0;
      }
      else record c { move_timeout = n }

  -- `computeTau_` up to the call of `computeTauImpl`, which gets the contents of `desired` and
  -- `parameters`; `none` where the increment overflows.
  unfoldable pub compute_base_tau :
      (pose : Pose) (offset : Bool)
      → PandaControllerBase Pose Parameters
      → Option (PandaControllerBase Pose Parameters)
  unfolding update_buffer
  compute_base_tau pose offset c = elim (incremented c.move_timeout) [
    | none ↦ none
    | some n ↦ some (
        take_target n (record c {
          current = pose;
          parameters = update_buffer c.parameters;
          has_offset = offset;
        }))
  ]

  unfoldable pub moving : PandaControllerBase Pose Parameters → Bool
  moving c = ltb c.move_timeout 3 || c.has_offset
