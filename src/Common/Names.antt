-- ===== src/Common/Names.antt =====
-- franka_hardware/src/common/helper_functions.cpp: tests and parts of the names of ros2_control
-- interfaces, such as "panda_joint3/effort".
pub mod Parsing
pub mod Matching
pub mod Types
use franka_gazebo.Prelude.{
  ℕ, ◌+◌, ℤ, pos, negsuc, sub_ℕ, get_elem?, Bool, true, false, ◌&&◌, ◌||◌, not, Option, none, some,
  List, [], ◌∷◌, ◌++◌, ◌==◌, if◌then◌else◌, Name, codes, is_prefix, contains, all,
}

-- `startsWith(mainStr, toMatch)`.
unfoldable pub starts_with : Name → Name → Bool
starts_with main_str to_match = is_prefix to_match main_str

unfoldable pub all_of_element_has_string : List Name → Name → Bool
all_of_element_has_string [] content = false
all_of_element_has_string (n ∷ ns) content = all (contains content) (n ∷ ns)

-- The results 0, 1, 2 and -1 of `check_command_mode_type`.
pub data CommandType : Type 0 where
  empty joint cartesian invalid : CommandType

unfoldable pub check_command_mode_type : List Name → CommandType
check_command_mode_type [] = empty
check_command_mode_type (n ∷ ns) =
    let is_cartesian = all_of_element_has_string (n ∷ ns) (codes "ee_cartesian") in
    let is_joint = all_of_element_has_string (n ∷ ns) (codes "joint") in
    if not (is_cartesian || is_joint)
    then invalid
    else if is_joint
    then joint
    else if is_cartesian
    then cartesian
    else invalid

-- The part of `s` in front of its last '_', if it has one: `s.find_last_of('_')` and `s.substr(0, pos)`.
pub before_last : Name → Option Name
before_last [] = none
before_last (c ∷ s) = elim (before_last s) [
  | some front ↦ some (c ∷ front)
  | none ↦ if c == b'_' then some [] else none
]

pub get_ns : Name → Name
get_ns s = elim (before_last s) [ some front ↦ front | none ↦ s ]

-- `s.back()`, undefined for the empty name.
pub back : Name → Option ℕ
back [] = none
back (c ∷ []) = some c
back (c ∷ d ∷ s) = back (d ∷ s)

-- `s.back() - '0' - 1`, an `int`.
pub get_joint_no : Name → Option ℤ
get_joint_no s = elim (back s) [ none ↦ none | some c ↦ some (sub_ℕ c (b'0' + 1)) ]

-- `array.at(i)`: a negative `int` becomes an index beyond every array, and the call throws.
pub at {ℓ} : {A : Type ℓ} → List A → ℤ → Option A
at xs (pos i) = get_elem? xs i
at xs (negsuc i) = none
