-- ===== src/MultiMode/Resources.antt =====
-- multi_mode_controller/include/multi_mode_controller/utils/conversions.h: a resource that stands for
-- several arms is their names joined by "&".
pub mod Conversions
use franka_gazebo.Prelude.{
  ℕ, zero, suc, ◌+◌, Option, none, some, List, [], ◌∷◌, ◌++◌, ◌==◌, if◌then◌else◌, Name, length,
}

-- `res.find("&")` with the two `substr` around it.
unfoldable pub split_first : Name → Option (Name × Name)
split_first [] = none
split_first (c ∷ s) =
    let rest = split_first s in
    if c == b'&'
    then some ([], s)
    else elim rest [ none ↦ none | some (front, back) ↦ some (c ∷ front, back) ]

-- `pushBackResources`, with fuel for its recursion on the part behind the "&".
unfoldable pub push_back_resources : ℕ → List Name → Name → List Name
push_back_resources zero out res = out
push_back_resources (suc f) out [] = out
push_back_resources (suc f) out (c ∷ s) = elim (split_first (c ∷ s)) [
  | none ↦ out ++ (c ∷ s) ∷ []
  | some (front, back) ↦ push_back_resources f (out ++ front ∷ []) back
]

unfoldable pub resource_to_vector : Name → List Name
resource_to_vector res = push_back_resources (length res + 1) [] res

-- The loop of `vectorToResource` over `vec[1]` and so on.
unfoldable pub joined : List Name → Name
joined [] = []
joined (n ∷ ns) = b'&' ∷ n ++ joined ns

unfoldable pub vector_to_resource : List Name → Name
vector_to_resource [] = []
vector_to_resource (n ∷ ns) = n ++ joined ns
