-- ===== src/Common/Names/Types.antt =====
-- When `check_command_mode_type` of helper_functions.cpp gives which result.
use franka_gazebo.Prelude.{
  Bool, true, false, List, [], ◌∷◌, ◌≡◌, ◌≢◌, ◌↔◌, refl, arith, Name, codes, all, contains,
}
use franka_gazebo.Common.Names.{
  empty, joint, cartesian, check_command_mode_type, all_of_element_has_string,
}

-- The result is 0 exactly for the empty request.
pub check_command_mode_type-empty :
    (ns : List Name) → (check_command_mode_type ns ≡ empty) ↔ (ns ≡ [])
unfolding check_command_mode_type
check_command_mode_type-empty [] = ground arith
check_command_mode_type-empty (n ∷ ns) = ground arith

abbrev pub every : Name → List Name → Bool
every content = all (contains content)

-- For a request that is not empty the result is 1 exactly if every name has "joint" in it, and 2
-- exactly if every name has "ee_cartesian" in it and some name lacks "joint".
pub check_command_mode_type_lem :
    (ns : List Name)
    → ns ≢ []
    → ((check_command_mode_type ns ≡ joint) ↔ (every (codes "joint") ns ≡ true))
      × ((check_command_mode_type ns ≡ cartesian)
          ↔ ((every (codes "ee_cartesian") ns ≡ true) × (every (codes "joint") ns ≡ false)))
unfolding check_command_mode_type all_of_element_has_string
check_command_mode_type_lem [] h = absurd (h refl)
check_command_mode_type_lem (n ∷ ns) h = ground arith
