-- ===== src/MultiMode/ControlSet.antt =====
-- multi_mode_controller_impl/src/multi_mode_controller.cpp: the sets of controllers, how a request
-- becomes one, and the two services. A pointer to the array `tau_` of an arm is the index of the arm in
-- `arms_`; a pointer to a controller is its name and resource, under which `control_map_` owns it.
-- `resources` stands for the three maps `tau_map_`, `rd_map_` and `switch_engines_`, which get their
-- entries together.
pub mod Usage
pub mod Exclusive
pub mod Service
use franka_gazebo.Prelude.{
  ℕ, zero, suc, ◌+◌, Bool, true, false, ◌&&◌, ◌||◌, not, Option, none, some, List, [], ◌∷◌, ◌++◌,
  ◌==◌, ltb, if◌then◌else◌, Name, Map, find, map, any, select, replicate, set, get_or, length, same,
  ◌≡◌, ◌⊎◌, inl, inr, refl,
}
use franka_gazebo.MultiMode.Resources.{resource_to_vector}

pub record ControllerInfo : Type 0 where
  pub name : Name
  pub resource : Name

pub record Controller : Type 0 where
  pub info : ControllerInfo
  pub tau : List ℕ

-- `ArmContainer` of multi_mode_controller.h.
pub record ModeArm (D : Type 0) : Type 0 where
  pub arm_id : Name
  pub tau : List D

-- The two calls of a switch engine that change a controller.
pub data Event : Type 0 where
  stops starts : ControllerInfo → Event

pub record MultiModeController (D : Type 0) : Type 0 where
  pub robot_index : Map ℕ
  pub arms : List (ModeArm D)
  -- For each controller the resources that it was created for.
  pub control_map : Map (List Name)
  pub resources : Map (List ℕ)
  pub active_control_set : List Controller
  -- What the controllers were told so far.
  pub events : List Event

-- The pointer that a function returns, or the exception of `std::map::at`.
pub data Outcome {ℓ} (A : Type ℓ) : Type ℓ where
  value : A → Outcome A
  null thrown : Outcome A

pub Outcome-cases {ℓ} :
    {A : Type ℓ} (o : Outcome A) → (o ≡ null) ⊎ (o ≡ thrown) ⊎ ((a : A) × (o ≡ value a))
Outcome-cases null = inl refl
Outcome-cases thrown = inr (inl refl)
Outcome-cases (value a) = inr (inr (a, refl))

pub value-injective {ℓ} : {A : Type ℓ} (a b : A) → value a ≡ value b → a ≡ b
value-injective a b e = cc

-- `robot_index_[name]`: a name that is missing is put in with index 0.
abbrev pub index_of : Map ℕ → Name → ℕ
index_of m name = elim (find name m) [ none ↦ 0 | some i ↦ i ]

module _ {D : Type 0} where
  -- One round of the loop of `getControlSetFromInfo`.
  unfoldable pub controller_of : MultiModeController D → ControllerInfo → Outcome Controller
  controller_of c i = elim (find i.name c.control_map) [
    | none ↦ null
    | some created ↦
        if not (any (same i.resource) created) then null else elim (find i.resource c.resources) [
          | none ↦ thrown
          | some tau ↦ value (record { info = i; tau = tau })
        ]
  ]

  unfoldable pub get_control_set_from_info :
      MultiModeController D → List ControllerInfo → Outcome (List Controller)
  unfolding controller_of
  get_control_set_from_info c [] = value []
  get_control_set_from_info c (i ∷ is) = elim (controller_of c i) [
    | null ↦ null
    | thrown ↦ thrown
    | value x ↦ elim (get_control_set_from_info c is) [
      | null ↦ null
      | thrown ↦ thrown
      | value xs ↦ value (x ∷ xs)
    ]
  ]

-- Two controllers have a pointer to a torque array in common.
abbrev pub shares : List ℕ → List ℕ → Bool
shares ns os = any (λ n. any (λ o. n == o) os) ns

-- The old controllers that have no array in common with a controller of the set `out`. Each one that
-- is added is compared with the next ones too.
unfoldable pub add_old : List Controller → List Controller → List Controller
add_old [] out = out
add_old (old ∷ olds) out =
    add_old olds (if any (λ nc. shares old.tau nc.tau) out then out else out ++ old ∷ [])

-- The increments of `resource_usage`, for one resource and for a control set.
unfoldable pub count_usage : Map ℕ → List Name → List ℕ → List ℕ
count_usage m [] usage = usage
count_usage m (res ∷ rest) usage =
    count_usage m rest (set usage (index_of m res) (get_or usage (index_of m res) 0 + 1))

unfoldable pub count_usages : Map ℕ → List Controller → List ℕ → List ℕ
unfolding count_usage
count_usages m [] usage = usage
count_usages m (nc ∷ ncs) usage =
    count_usages m ncs (count_usage m (resource_to_vector nc.info.resource) usage)

module _ {D : Type 0} where
  -- The last loop of `setupControlSet`: no arm is used more than once, and none is left out.
  unfoldable pub is_used_once : Map ℕ → List ℕ → List (ModeArm D) → Bool
  is_used_once m usage [] = true
  is_used_once m usage (arm ∷ arms) =
      let u = get_or usage (index_of m arm.arm_id) 0 in
      if ltb 1 u then false else if ltb u 1 then false else is_used_once m usage arms

  unfoldable pub setup_control_set :
      MultiModeController D → List ControllerInfo → Outcome (List Controller)
  unfolding get_control_set_from_info add_old count_usages is_used_once
  setup_control_set c info = elim (get_control_set_from_info c info) [
    | null ↦ null
    | thrown ↦ thrown
    | value new ↦
        let out = add_old c.active_control_set new in
        let usage = count_usages c.robot_index out (replicate (length c.arms) 0) in
        if is_used_once c.robot_index usage c.arms then value out else null
  ]

-- `multi_mode_control_msgs::msg::Controller`.
pub record ControllerMsg : Type 0 where
  pub name : Name
  pub resources : List Name

-- The list `new_control` that a request becomes: one entry for each resource.
unfoldable pub infos_of : List ControllerMsg → List ControllerInfo
infos_of [] = []
infos_of (m ∷ ms) = map (λ r. record { name = m.name; resource = r }) m.resources ++ infos_of ms

module _ {D : Type 0} where
  -- The state after the service, and what it returns; `none` is the exception of `at`.
  unfoldable pub set_controllers_callback :
      MultiModeController D → List ControllerMsg → Option (MultiModeController D × Bool)
  unfolding setup_control_set infos_of
  set_controllers_callback c req = elim (setup_control_set c (infos_of req)) [
    | thrown ↦ none
    | null ↦ some (c, false)
    | value new_set ↦ some (
      record c {
        active_control_set = new_set;
        events =
            c.events
            ++ map (λ x. stops x.info) c.active_control_set
            ++ map (λ x. starts x.info) new_set;
      },
      true,
    )
  ]

  unfoldable pub get_controllers_callback : MultiModeController D → List ControllerMsg
  get_controllers_callback c =
      map (λ x. record { name = x.info.name; resources = x.info.resource ∷ [] })
        c.active_control_set
