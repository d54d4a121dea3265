-- ===== src/Garmi.antt =====
-- garmi_packages/garmi_controllers: the controllers of the head and of the mobile base of the robot GARMI,
-- with what they do with a `double`.
pub mod Head
pub mod Base
use franka_gazebo.Prelude.{Bool, if◌then◌else◌}

-- The operations and comparisons of a `double`. `head_force`, `pan_limit` and `tilt_limit` are 15, 0.6 and
-- 0.2, `rate` is 0.001, and `max_speed`, `separation` and `radius` are members of the base's class.
pub record Real (D : Type 0) : Type 0 where
  pub nought : D
  pub one : D
  pub two : D
  pub less : D → D → Bool
  pub equal : D → D → Bool
  pub plus : D → D → D
  pub minus : D → D → D
  pub times : D → D → D
  pub over : D → D → D
  pub negated : D → D
  pub absolute : D → D
  pub head_force : D
  pub pan_limit : D
  pub tilt_limit : D
  pub rate : D
  pub max_speed : D
  pub separation : D
  pub radius : D

module _ {D : Type 0} (r : Real D) where
  -- `std::max` and `std::min`.
  abbrev pub larger : D → D → D
  larger a b = if r.less a b then b else a

  abbrev pub smaller : D → D → D
  smaller a b = if r.less b a then b else a

  -- `std::min(limit, std::max(-limit, x))`.
  abbrev pub limited : (limit x : D) → D
  limited limit x = smaller limit (larger (r.negated limit) x)
