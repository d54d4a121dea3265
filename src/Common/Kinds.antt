-- ===== src/Common/Kinds.antt =====
-- The tests on interface names that both `prepare_command_mode_switch` methods make, in
-- franka_hardware/src/real/franka_multi_hardware_interface.cpp and src/sim/franka_mj_hardware_system.cpp.
use franka_gazebo.Prelude.{◌≡◌, ◌⊎◌, inl, inr, refl, Bool, ◌&&◌, ◌||◌, not, List, Name, codes}
use franka_gazebo.Common.Names.{all_of_element_has_string}

-- `hardware_interface::return_type`.
pub data ReturnType : Type 0 where
  ok error : ReturnType

pub record Kinds : Type 0 where
  pub is_effort : Bool
  pub is_position : Bool
  pub is_velocity : Bool

unfoldable pub kinds_of : List Name → Kinds
kinds_of names = record {
  is_effort = all_of_element_has_string names (codes "effort");
  is_position = all_of_element_has_string names (codes "position");
  is_velocity = all_of_element_has_string names (codes "velocity");
}

abbrev pub is_duplicate : Kinds → Bool
is_duplicate k =
    (k.is_effort && k.is_position)
    || (k.is_effort && k.is_velocity)
    || (k.is_velocity && k.is_position)

-- Neither of the two errors "not a supported type" and "a confusing name".
abbrev pub is_verified : Kinds → Bool
is_verified k = (k.is_effort || k.is_position || k.is_velocity) && not (is_duplicate k)

pub ReturnType-cases : (r : ReturnType) → (r ≡ ok) ⊎ (r ≡ error)
ReturnType-cases ok = inl refl
ReturnType-cases error = inr refl
