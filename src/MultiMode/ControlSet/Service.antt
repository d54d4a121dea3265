-- ===== src/MultiMode/ControlSet/Service.antt =====
-- What the service `setControllersCallback` of multi_mode_controller.cpp does with a request.
use franka_gazebo.Prelude.{
  ◌≡◌, ◌≢◌, refl, arith, Bool, true, false, ◌&&◌, none, some, List, [], ◌∷◌, ◌++◌, if◌then◌else◌,
  Name, find, map, any, same, Option-cases, inl, inr, ◌⊎◌,
}
use franka_gazebo.MultiMode.ControlSet.{
  ControllerInfo, Controller, ControllerMsg, MultiModeController, Event, stops, starts, value,
  thrown, Outcome-cases, controller_of, get_control_set_from_info, setup_control_set, infos_of,
  set_controllers_callback,
}
use franka_gazebo.MultiMode.ControlSet.Exclusive.{
  IsWired, IsExclusive, setup_control_set-IsExclusive,
}

abbrev pub same_info : ControllerInfo → ControllerInfo → Bool
same_info i j = same i.name j.name && same i.resource j.resource

-- A controller with this name and resource is in the set.
abbrev pub listed : ControllerInfo → List Controller → Bool
listed i = any λ x. same_info i x.info

-- Whether a controller runs after some events: what it was told last counts.
abbrev pub runs_after : ControllerInfo → Bool → List Event → Bool
runs_after i b [] = b
runs_after i b (stops j ∷ es) = runs_after i (if same_info i j then false else b) es
runs_after i b (starts j ∷ es) = runs_after i (if same_info i j then true else b) es

runs_after-append :
    (i : ControllerInfo) (b : Bool) (es fs : List Event)
    → runs_after i b (es ++ fs) ≡ runs_after i (runs_after i b es) fs
runs_after-append i b [] fs = refl
runs_after-append i b (stops j ∷ es) fs =
    runs_after-append i (if same_info i j then false else b) es fs
runs_after-append i b (starts j ∷ es) fs =
    runs_after-append i (if same_info i j then true else b) es fs

runs_after-stops :
    (i : ControllerInfo) (b : Bool) (xs : List Controller)
    → runs_after i b (map (λ (x : Controller). stops x.info) xs)
      ≡ (if listed i xs then false else b)
runs_after-stops i b [] = refl
runs_after-stops i b (x ∷ xs) =
    ground (arith, runs_after-stops i (if same_info i x.info then false else b) xs)

pub runs_after-starts :
    (i : ControllerInfo) (b : Bool) (xs : List Controller)
    → runs_after i b (map (λ (x : Controller). starts x.info) xs)
      ≡ (if listed i xs then true else b)
runs_after-starts i b [] = refl
runs_after-starts i b (x ∷ xs) =
    ground (arith, runs_after-starts i (if same_info i x.info then true else b) xs)

told :
    (old new : List Controller) (i : ControllerInfo) (es : List Event)
    → runs_after i false (
        es
        ++ map (λ (x : Controller). stops x.info) old
        ++ map (λ (x : Controller). starts x.info) new)
      ≡ (if listed i new then true else if listed i old then false else runs_after i false es)
told old new i es =
    let halt = map (λ (x : Controller). stops x.info) old in
    let begin = map (λ (x : Controller). starts x.info) new in
    rw
      (
        runs_after-append i false (es ++ halt) begin,
        runs_after-append i false es halt,
        runs_after-stops i (runs_after i false es) old,
      )
      (runs_after-starts i (if listed i old then false else runs_after i false es) new)

module _ {D : Type 0} where
  abbrev pub runs : ControllerInfo → MultiModeController D → Bool
  runs i c = runs_after i false c.events

  -- The controllers that run are those of the active set.
  abbrev pub InStep : MultiModeController D → Type 0
  InStep c = (i : ControllerInfo) → runs i c ≡ listed i c.active_control_set

  -- Every resource that a controller was created for has its torque pointers.
  abbrev pub IsStocked : MultiModeController D → Type 0
  IsStocked c =
      (name r : Name) (created : List Name)
      → find name c.control_map ≡ some created
      → any (same r) created ≡ true
      → find r c.resources ≢ none

  controller_of-ne-thrown :
      (c : MultiModeController D) (i : ControllerInfo) → IsStocked c → controller_of c i ≢ thrown
  unfolding controller_of
  controller_of-ne-thrown c i s e = elim (Option-cases (find i.name c.control_map)) [
    | inl p ↦ ground (arith, p)
    | inr (created, p) ↦ ground (arith, p, s i.name i.resource created p)
  ]

  get_control_set_from_info-ne-thrown :
      (c : MultiModeController D) (is : List ControllerInfo)
      → IsStocked c
      → get_control_set_from_info c is ≢ thrown
  unfolding get_control_set_from_info
  get_control_set_from_info-ne-thrown c [] s e = cc
  get_control_set_from_info-ne-thrown c (i ∷ is) s e =
      ground (arith, controller_of-ne-thrown c i s, get_control_set_from_info-ne-thrown c is s)

  setup_control_set-ne-thrown :
      (c : MultiModeController D) (is : List ControllerInfo)
      → IsStocked c
      → setup_control_set c is ≢ thrown
  unfolding setup_control_set
  setup_control_set-ne-thrown c is s e = ground (arith, get_control_set_from_info-ne-thrown c is s)

  -- What the service does when it carries out a request.
  pub record IsServed (c : MultiModeController D) (req : List ControllerMsg)
      (c' : MultiModeController D) : Type 0 where
    pub exclusive : IsExclusive c (infos_of req) c'.active_control_set
    pub in_step : InStep c'
    pub same_arms : c'.arms ≡ c.arms
    pub wired : IsWired c'
    pub stocked : IsStocked c'

  served :
      (c : MultiModeController D) (req : List ControllerMsg) (out : List Controller)
      → IsWired c
      → IsStocked c
      → InStep c
      → setup_control_set c (infos_of req) ≡ value out
      → IsServed c req (record c {
        active_control_set = out;
        events =
            c.events
            ++ map (λ x. stops x.info) c.active_control_set
            ++ map (λ x. starts x.info) out;
      })
  served c req out w s h e =
      let v = setup_control_set-IsExclusive c (infos_of req) out w e in
      record {
        exclusive = v;
        in_step = λ i. ground (arith, h i, told c.active_control_set out i c.events);
        same_arms = refl;
        wired = record { in_range = w.in_range; resources = w.resources; active = v.wired };
        stocked = s;
      }

  -- Over a set-up controller whose running controllers are the active ones, the service ends in no
  -- exception. It returns false and leaves the controller as it was, or it returns true, and then each arm
  -- is written by exactly one active controller, the requested ones among them, the running controllers
  -- are again the active ones, and the controller is again set up.
  pub set_controllers_callback_lem :
      (c : MultiModeController D) (req : List ControllerMsg)
      → IsWired c
      → IsStocked c
      → InStep c
      → (set_controllers_callback c req ≡ some (c, false))
        ⊎ ((c' : MultiModeController D) × (set_controllers_callback c req ≡ some (c', true))
            × IsServed c req c')
  unfolding set_controllers_callback
  set_controllers_callback_lem c req w s h =
      elim (Outcome-cases (setup_control_set c (infos_of req))) [
        | inl p ↦ inl (rw (p, set_controllers_callback))
        | inr (inl p) ↦ absurd (setup_control_set-ne-thrown c (infos_of req) s p)
        | inr (inr (out, p)) ↦ inr (_, rw (p, set_controllers_callback), served c req out w s h p)
      ]
