-- ===== src/Hardware/Export/Addresses.antt =====
-- Where the exported interfaces of franka_multi_hardware_interface.cpp point to.
use franka_gazebo.Prelude.{
  ℕ, suc, ◌+◌, ◌-◌, ◌*◌, ◌≤◌, ◌≡◌, ◌≢◌, refl, ap, ◌∙◌, arith, none, some, List, [], ◌∷◌, ◌++◌, Name,
  codes, Map, find, map, length, length-append, get_elem?, All, All-append, Both, Option-cases, inl,
  inr, append_assoc, ℤ,
}
use franka_gazebo.Common.Names.{get_ns, get_joint_no, at}
use franka_gazebo.Common.Names.Parsing.{get_ns-append, at-get_joint_no}
use franka_gazebo.Hardware.Init.{JointInfo}
use franka_gazebo.Hardware.Export.{
  held, copied, Field, Exported, seven_entries, touch, at_joint, at_copy, arm_commands, each_name,
  export_joints, command_kinds, state_kinds, arm_states, export_command_interfaces,
  export_state_interfaces, cartesian_matrix_names, cartesian_velocity_command_names,
}

-- The name of joint `k` of an arm.
abbrev pub joint_name : Name × ℕ → Name
joint_name (arm, k) = (arm ++ b'_' ∷ codes "joint") ++ (b'0' + k) ∷ []

-- A joint has the name of one of the seven joints of an arm in the map.
abbrev pub IsNamed : Map Name → Name × ℕ → JointInfo → Type 0
IsNamed m id j = (j.name ≡ joint_name id) × (1 ≤ id.1) × (id.1 ≤ 7) × (find id.0 m ≢ none)

-- The interfaces of a joint of an arm: at entry `k - 1` of the arm's own arrays.
abbrev pub own_entries : List (Name × Field) → Name × ℕ → List Exported
own_entries kinds (arm, k) =
    map
      (λ f. record {
        prefix = joint_name (arm, k);
        interface = f.0;
        address = record { home = held arm; field = f.1; index = k - 1 };
      })
      kinds

abbrev pub own_joints : List (Name × Field) → List (Name × ℕ) → List Exported
own_joints kinds [] = []
own_joints kinds (id ∷ ids) = own_entries kinds id ++ own_joints kinds ids

get_ns-joint_name : (arm : Name) (k : ℕ) → k ≤ 7 → get_ns (joint_name (arm, k)) ≡ arm
get_ns-joint_name arm k h =
    ap get_ns (append_assoc arm (codes "_joint") ((b'0' + k) ∷ []))
    ∙ get_ns-append arm (codes "joint" ++ (b'0' + k) ∷ []) (ground arith)

get_elem?-seven_entries : (k : ℕ) → 1 ≤ k → k ≤ 7 → get_elem? seven_entries (k - 1) ≡ some (k - 1)
get_elem?-seven_entries k l h = ground arith

touch_there : (arm : Name) (m : Map Name) → find arm m ≢ none → touch arm m ≡ m
touch_there arm m h = elim (Option-cases (find arm m)) [
  | inl e ↦ absurd (h e)
  | inr (n, e) ↦ rw (e, touch) refl
]

export_joints_step :
    (kinds : List (Name × Field)) (j : JointInfo) (js : List JointInfo) (m : Map Name) (z : ℤ)
    (i : ℕ) (es : List Exported)
    → get_joint_no j.name ≡ some z
    → at seven_entries z ≡ some i
    → touch (get_ns j.name) m ≡ m
    → export_joints kinds js m ≡ some (es, m)
    → export_joints kinds (j ∷ js) m ≡ some (at_joint j.name i kinds ++ es, m)
unfolding export_joints
export_joints_step kinds j js m z i es p q t r = rw (export_joints, p, q, t, r) refl

at_joint-own_entries :
    (kinds : List (Name × Field)) (id : Name × ℕ)
    → id.1 ≤ 7
    → at_joint (joint_name id) (id.1 - 1) kinds ≡ own_entries kinds id
at_joint-own_entries kinds (arm, k) h =
    ap
      (λ a.
        map
          (λ (f : Name × Field). record {
            prefix = joint_name (arm, k);
            interface = f.0;
            address = record { home = held a; field = f.1; index = k - 1 };
          })
          kinds)
      (get_ns-joint_name arm k h)

pub export_joints-own_joints :
    (kinds : List (Name × Field)) (m : Map Name) (ids : List (Name × ℕ)) (js : List JointInfo)
    → Both (IsNamed m) ids js
    → export_joints kinds js m ≡ some (own_joints kinds ids, m)
unfolding export_joints
export_joints-own_joints kinds m [] [] h = refl
export_joints-own_joints kinds m [] (j ∷ js) h = absurd h
export_joints-own_joints kinds m (id ∷ ids) [] h = absurd h
export_joints-own_joints kinds m ((arm, k) ∷ ids) (j ∷ js) ((named, l, u, there), rest) =
    let (z, no_of, entry) = at-get_joint_no seven_entries (arm ++ b'_' ∷ codes "joint") k l in
    let space : get_ns j.name ≡ arm = ap get_ns named ∙ get_ns-joint_name arm k u in
    let settled : touch (get_ns j.name) m ≡ m =
      ap (λ a. touch a m) space ∙ touch_there arm m there in
    let own : at_joint j.name (k - 1) kinds ≡ own_entries kinds (arm, k) =
      ap (λ s. at_joint s (k - 1) kinds) named ∙ at_joint-own_entries kinds (arm, k) u in
    export_joints_step kinds j js m z (k - 1) (own_joints kinds ids) (ap get_joint_no named ∙ no_of)
      (entry ∙ get_elem?-seven_entries k l u) settled (export_joints-own_joints kinds m ids js rest)
    ∙ ap (λ es. some (es ++ own_joints kinds ids, m)) own

-- If every joint has the name of one of the seven joints of an arm in the map, both exports succeed, put
-- no arm in, and hand out for joint `k` of an arm the entry `k - 1` of that arm's own arrays, in the order
-- of the joints, in front of the interfaces of the arms.
pub export-own_joints :
    (m : Map Name) (ids : List (Name × ℕ)) (js : List JointInfo)
    → Both (IsNamed m) ids js
    → (export_command_interfaces js m
        ≡ some (own_joints command_kinds ids ++ each_name arm_commands m, m))
      × (export_state_interfaces js m
          ≡ some (own_joints state_kinds ids ++ each_name arm_states m, m))
unfolding export_command_interfaces export_state_interfaces
export-own_joints m ids js h = (
  rw (export_command_interfaces, export_joints-own_joints command_kinds m ids js h) refl,
  rw (export_state_interfaces, export_joints-own_joints state_kinds m ids js h) refl,
)

-- The address is one in the copy of a container.
abbrev pub IsCopied : Exported → Type 0
IsCopied x = (arm : Name) × (x.address.home ≡ copied arm)

at_copy-IsCopied :
    (arm prefix : Name) (field : Field) (ns : List Name) (i : ℕ)
    → All IsCopied (at_copy arm prefix field ns i)
at_copy-IsCopied arm prefix field [] i = tt
at_copy-IsCopied arm prefix field (n ∷ ns) i =
    ((arm, refl), at_copy-IsCopied arm prefix field ns (i + 1))

length-at_copy :
    (arm prefix : Name) (field : Field) (ns : List Name) (i : ℕ)
    → length (at_copy arm prefix field ns i) ≡ length ns
length-at_copy arm prefix field [] i = refl
length-at_copy arm prefix field (n ∷ ns) i = ap suc (length-at_copy arm prefix field ns (i + 1))

-- Each arm gets 22 Cartesian command interfaces, and all of them point into copies of the containers
-- that the loop made, none into the arm itself.
pub arm_commands-IsCopied :
    (m : Map Name)
    → All IsCopied (each_name arm_commands m) × (length (each_name arm_commands m) ≡ 22 * length m)
unfolding each_name
arm_commands-IsCopied [] = (tt, omega arith)
arm_commands-IsCopied ((arm, name) ∷ m) =
    let (copies, size) = arm_commands-IsCopied m in
    let position = name ++ codes "_ee_cartesian_position" in
    let velocity = name ++ codes "_ee_cartesian_velocity" in
    let pose = Field.hw_commands_cartesian_position in
    let twist = Field.hw_commands_cartesian_velocity in
    let poses = at_copy arm position pose cartesian_matrix_names 0 in
    let twists = at_copy arm velocity twist cartesian_velocity_command_names 0 in
    (
      All-append IsCopied (poses ++ twists) (each_name arm_commands m)
          (All-append IsCopied poses twists
            (at_copy-IsCopied arm position pose cartesian_matrix_names 0)
            (at_copy-IsCopied arm velocity twist cartesian_velocity_command_names 0))
          copies,
      length-append (poses ++ twists) (each_name arm_commands m) ∙ omega (arith, size),
    )
