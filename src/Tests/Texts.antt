-- ===== src/Tests/Texts.antt =====
-- Tests on names and masks: helper_functions.cpp, control_mode.cpp and conversions.h.
use franka_gazebo.Prelude.{◌≡◌, refl, List, [], ◌∷◌, Name, codes}
use franka_gazebo.Common.ControlMode.{mode_and, mode_or, mode_xor, mode_not}
use franka_gazebo.MultiMode.Resources.{resource_to_vector, joined, vector_to_resource}
use franka_gazebo.MultiMode.Resources.Conversions.{resource_to_vector-vector_to_resource}

masks : (mode_or 1 4 ≡ 5) × (mode_and 5 4 ≡ 4) × (mode_xor 5 4 ≡ 1) × (mode_not 0 ≡ 4294967295)
masks = (refl, refl, refl, refl)

abbrev both : List Name
both = codes "left" ∷ codes "right" ∷ []

resource_to_vector-vector_to_resource_example : resource_to_vector (vector_to_resource both) ≡ both
resource_to_vector-vector_to_resource_example =
    resource_to_vector-vector_to_resource both ((refl, λ e. cc), ((refl, λ e. cc), tt))

joined_names : vector_to_resource both ≡ codes "left&right"
unfolding vector_to_resource joined
joined_names = refl
