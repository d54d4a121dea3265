-- ===== src/MultiMode/Setup.antt =====
-- `on_configure`, `initControllers` and `on_activate` of multi_mode_controller.cpp. What the parameter server, the
-- factory of controllers and the `init` methods answer is the record `Setting`.
pub mod Entries
pub mod Pointers
pub mod Wiring
pub mod Readiness
use franka_gazebo.Prelude.{
  ℕ, zero, suc, ◌+◌, Bool, true, false, Option, none, some, List, [], ◌∷◌, ◌++◌, if◌then◌else◌,
  Name, codes, Map, find, assign, map, all,
}
use franka_gazebo.MultiMode.Resources.{resource_to_vector}
use franka_gazebo.MultiMode.ControlSet.{
  ControllerInfo, MultiModeController, value, null, thrown, index_of, get_control_set_from_info,
  starts,
}

pub record Setting : Type 0 where
  -- The parameter "arm_<i>.arm_id"; `none` where reading it throws.
  pub arm_id : ℕ → Option Name
  -- `get_string_array_param`; empty where the parameter is missing.
  pub strings : Name → List Name
  pub robot_data_init : Name → Bool
  -- The factory has a class of this name; otherwise `create` throws.
  pub is_registered : Name → Bool
  pub engine_init : Name → Bool
  pub control_init : Name → Name → Bool

-- `std::map::insert`, which leaves an entry that is there.
abbrev pub insert_new {ℓ} : {V : Type ℓ} → Name → V → Map V → Map V
insert_new k v m = elim (find k m) [ none ↦ assign k v m | some w ↦ m ]

-- The loop over "start_controllers.names"; `none` where a controller has no resources.
unfoldable pub start_infos : Setting → List Name → Option (List ControllerInfo)
start_infos s [] = some []
start_infos s (n ∷ ns) = elim (s.strings (codes "start_controllers.resources." ++ n)) [
  | [] ↦ none
  | r ∷ rs ↦ elim (start_infos s ns) [
    | none ↦ none
    | some is ↦ some (map (λ q. record { name = n; resource = q }) (r ∷ rs) ++ is)
  ]
]

module _ {D : Type 0} where
  abbrev add_arm : List D → ℕ → Name → MultiModeController D → MultiModeController D
  add_arm tau i id c = record c {
    robot_index = insert_new id i c.robot_index;
    arms = c.arms ++ record { arm_id = id; tau = tau } ∷ [];
  }

  -- The loop of `on_configure` from arm `suc i` on, with `n` arms to go. The flag is false where it
  -- returns ERROR. `tau` is the array that a new `ArmContainer` comes with.
  unfoldable pub configure_arms :
      Setting → List D → ℕ → ℕ → MultiModeController D → MultiModeController D × Bool
  configure_arms s tau zero i c = (c, true)
  configure_arms s tau (suc n) i c = elim (s.arm_id (i + 1)) [
    | none ↦ (c, false)
    | some id ↦ elim (s.robot_data_init id) [
      | false ↦ (add_arm tau i id c, false)
      | true ↦ configure_arms s tau n (i + 1) (add_arm tau i id c)
    ]
  ]

  abbrev created_for : MultiModeController D → Name → List Name
  created_for c controller = elim (find controller c.control_map) [ none ↦ [] | some rs ↦ rs ]

  -- The body of the loop over the resources of a controller, where the factory does not throw.
  abbrev add_resource : Name → Name → MultiModeController D → MultiModeController D
  add_resource controller resource c = record c {
    control_map = assign controller (created_for c controller ++ resource ∷ []) c.control_map;
    resources =
        insert_new resource (map (index_of c.robot_index) (resource_to_vector resource))
          c.resources;
  }

  unfoldable pub add_resources : Name → List Name → MultiModeController D → MultiModeController D
  add_resources controller [] c = c
  add_resources controller (r ∷ rs) c = add_resources controller rs (add_resource controller r c)

  -- The loop over "controllers". The flag is false where it returns false; `none` is the exception of
  -- the factory.
  unfoldable pub add_controllers :
      Setting → List Name → MultiModeController D → Option (MultiModeController D × Bool)
  unfolding add_resources
  add_controllers s [] c = some (c, true)
  add_controllers s (controller ∷ rest) c = elim (s.strings (codes "resources." ++ controller)) [
    | [] ↦ some (c, false)
    | r ∷ rs ↦
        let more = add_controllers s rest (add_resources controller (r ∷ rs) c) in
        if s.is_registered controller then more else none
  ]

  abbrev engines_ready : Setting → MultiModeController D → Bool
  engines_ready s c = all (λ p. s.engine_init p.0) c.resources

  abbrev controls_ready : Setting → MultiModeController D → Bool
  controls_ready s c = all (λ p. all (s.control_init p.0) p.1) c.control_map

  -- The part of `initControllers` behind its first loop.
  abbrev start_controllers : Setting → MultiModeController D → Option (MultiModeController D × Bool)
  start_controllers s c = elim (s.strings (codes "start_controllers.names")) [
    | [] ↦ some (c, false)
    | n ∷ ns ↦ elim (start_infos s (n ∷ ns)) [
      | none ↦ some (c, false)
      | some is ↦ elim (get_control_set_from_info c is) [
        | thrown ↦ none
        | null ↦ some (c, false)
        | value new ↦
            if engines_ready s c
            then some (record c { active_control_set = new }, controls_ready s c)
            else some (c, false)
      ]
    ]
  ]

  unfoldable pub init_controllers :
      Setting → MultiModeController D → Option (MultiModeController D × Bool)
  unfolding add_controllers start_infos
  init_controllers s c = elim (s.strings (codes "controllers")) [
    | [] ↦ some (c, false)
    | n ∷ ns ↦ elim (add_controllers s (n ∷ ns) c) [
      | none ↦ none
      | some (c', false) ↦ some (c', false)
      | some (c', true) ↦ start_controllers s c'
    ]
  ]

  -- The controller before `on_configure`.
  abbrev pub unconfigured : MultiModeController D
  unconfigured = record {
    robot_index = [];
    arms = [];
    control_map = [];
    resources = [];
    active_control_set = [];
    events = [];
  }

  -- The flag says SUCCESS; `none` is an exception. What `initControllers` returns is not looked at.
  unfoldable pub on_configure : Setting → List D → ℕ → Option (MultiModeController D × Bool)
  unfolding configure_arms init_controllers
  on_configure s tau num_robots =
      let (c, armed) = configure_arms s tau num_robots 0 unconfigured in
      elim armed [
        | false ↦ some (c, false)
        | true ↦ elim (init_controllers s c) [ none ↦ none | some (c', done) ↦ some (c', true) ]
      ]

  -- The models of the robots, which the method also activates and updates, are not part of the state.
  unfoldable pub on_activate : MultiModeController D → MultiModeController D
  on_activate c = record c { events = c.events ++ map (λ x. starts x.info) c.active_control_set }
