-- ===== src/Common/ControlMode.antt =====
-- franka_hardware/include/franka_hardware/common/control_mode.h and src/common/control_mode.cpp. The
-- enumerators are a data type; `underlying` is the bit of each, and the operators and the printer work
-- on such masks, kept as numbers below 2 ^ 32.
use franka_gazebo.Prelude.{
  ℕ, ◌-◌, ◌^◌, Bool, not, Option, none, some, List, [], ◌∷◌, ◌++◌, bit_and, bit_or, bit_xor, ◌==◌,
  if◌then◌else◌, Name, codes,
}

pub data ControlMode : Type 0 where
  idle joint_torque joint_position joint_velocity cartesian_velocity cartesian_pose : ControlMode

abbrev pub underlying : ControlMode → ℕ
underlying idle = 0
underlying joint_torque = 1
underlying joint_position = 2
underlying joint_velocity = 4
underlying cartesian_velocity = 8
underlying cartesian_pose = 16

-- `==` of two enumerators.
abbrev pub same_mode : ControlMode → ControlMode → Bool
same_mode a b = underlying a == underlying b

abbrev pub mode_and : ℕ → ℕ → ℕ
mode_and = bit_and

abbrev pub mode_or : ℕ → ℕ → ℕ
mode_or = bit_or

abbrev pub mode_xor : ℕ → ℕ → ℕ
mode_xor = bit_xor

abbrev pub mode_not : ℕ → ℕ
mode_not m = 2 ^ 32 - 1 - m

-- The names that `operator<<` collects, in its order.
unfoldable pub mode_names : ℕ → List Name
mode_names m =
    name_if joint_torque (codes "joint_torque")
    ++ name_if joint_position (codes "joint_position")
    ++ name_if joint_velocity (codes "joint_velocity")
    ++ name_if cartesian_velocity (codes "cartesian_velocity")
    ++ name_if cartesian_pose (codes "cartesian_pose")
  where
    name_if : ControlMode → Name → List Name
    name_if c n = if not (mode_and m (underlying c) == 0) then n ∷ [] else []

-- `std::copy(begin, end - 1)` with ", " after each, then `back()`: undefined where there is no name.
unfoldable pub separated : List Name → Option Name
separated [] = none
separated (n ∷ []) = some n
separated (n ∷ m ∷ ns) = elim (separated (m ∷ ns)) [
  | none ↦ none
  | some t ↦ some (n ++ codes ", " ++ t)
]

unfoldable pub print_mode : ℕ → Option Name
print_mode m = if m == 0 then some (codes "<none>") else separated (mode_names m)
