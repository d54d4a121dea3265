-- ===== src/Simulation/Prepare/Switch.antt =====
-- `prepare_command_mode_switch` of franka_mj_hardware_system.cpp as a whole.
use franka_gazebo.Prelude.{
  true, Option, some, List, [], ◌∷◌, ◌++◌, ◌≡◌, ◌≢◌, refl, arith, Name, codes, ◌⊎◌, inl, inr, Both,
  Bool-cases, sym, ◌∙◌, ap, append_assoc, nil-cases, all, contains, contains-append, length,
  replicate,
}
use franka_gazebo.Common.ControlMode.{ControlMode, idle, same_mode}
use franka_gazebo.Common.Double.{Double}
use franka_gazebo.Common.Names.{empty, joint, check_command_mode_type, starts_with}
use franka_gazebo.Common.Names.Matching.{starts_with_iff}
use franka_gazebo.Common.Names.Types.{check_command_mode_type-empty, check_command_mode_type_lem}
use franka_gazebo.Common.Kinds.{ok, kinds_of, ReturnType-cases}
use franka_gazebo.Hardware.Loop.{for_arms, for_arms-ok}
use franka_gazebo.Hardware.Prepare.Start.{requested}
use franka_gazebo.Hardware.Prepare.Switch.{AtArm, Both-trans}
use franka_gazebo.Simulation.{SimArm, SimArms}
use franka_gazebo.Simulation.Prepare.{
  sim_interfaces_of, sim_stop_arm, sim_start_arm, sim_prepare_command_mode_switch,
}

contains-joint :
    (arm s : Name)
    → starts_with s (arm ++ codes "_joint") ≡ true
    → contains (codes "joint") s ≡ true
contains-joint arm s h =
    let (r, e) = (starts_with_iff s (arm ++ codes "_joint")).0 h in
    let split : s ≡ (arm ++ codes "_") ++ codes "joint" ++ r =
      e ∙ ap (λ t. t ++ r) (sym (append_assoc arm (codes "_") (codes "joint"))) in
    rw split (contains-append (codes "joint") (arm ++ codes "_") r)

all_joint :
    (arm : Name) (ns : List Name) → all (contains (codes "joint")) (sim_interfaces_of arm ns) ≡ true
unfolding sim_interfaces_of
all_joint arm [] = refl
all_joint arm (n ∷ ns) = elim (Bool-cases (starts_with n (arm ++ codes "_joint"))) [
  | inl h ↦ ground (arith, h, contains-joint arm n h, all_joint arm ns)
  | inr h ↦ ground (arith, h, all_joint arm ns)
]

-- The interfaces that the simulation picks for an arm are never Cartesian and never mixed, whatever
-- the request holds: if there are any, their type is joint.
pub check_command_mode_type-sim_interfaces_of :
    (arm : Name) (request : List Name)
    → ((sim_interfaces_of arm request ≡ [])
        × (check_command_mode_type (sim_interfaces_of arm request) ≡ empty))
      ⊎ ((sim_interfaces_of arm request ≢ [])
          × (check_command_mode_type (sim_interfaces_of arm request) ≡ joint))
check_command_mode_type-sim_interfaces_of arm request =
    let mine = sim_interfaces_of arm request in
    elim (nil-cases mine) [
      | inl e ↦ inl (e, (check_command_mode_type-empty mine).1 e)
      | inr e ↦ inr (e, (check_command_mode_type_lem mine e).0.1 (all_joint arm request))
    ]

is_idle : (m : ControlMode) → same_mode m idle ≡ true → m ≡ idle
is_idle idle h = refl
is_idle _ h = absurd (cc)

module _ {D : Type 0} ⦃d : Double D⦄ where
  -- An arm before and after a loop: what no switch touches.
  pub record SimKeeps (a b : SimArm D) : Type 0 where
    pub same_joints : b.joints ≡ a.joints
    pub same_gripper : b.gripper ≡ a.gripper
    pub same_state : b.hw_franka_robot_state ≡ a.hw_franka_robot_state
    pub same_position : b.hw_commands_joint_position ≡ a.hw_commands_joint_position

  -- What an accepted request to stop means for an arm.
  pub record IsSimStopped (stop : List Name) (name : Name) (a b : SimArm D) : Type 0 where
    pub keeps : SimKeeps a b
    pub untouched : sim_interfaces_of name stop ≡ [] → b ≡ a
    pub idles : sim_interfaces_of name stop ≢ [] → (b.control_mode ≡ idle) × (b.switch_cm ≡ true)
    pub efforts :
        sim_interfaces_of name stop ≢ []
        → (kinds_of stop).is_effort ≡ true
        → b.hw_commands_joint_effort ≡ replicate 7 d.nought

  -- What an accepted request to start means for an arm.
  pub record IsSimStarted (start : List Name) (name : Name) (a b : SimArm D) : Type 0 where
    pub keeps : SimKeeps a b
    pub untouched : sim_interfaces_of name start ≡ [] → b ≡ a
    pub mode :
        sim_interfaces_of name start ≢ []
        → (b.control_mode ≡ requested joint (kinds_of start)) × (b.switch_cm ≡ true)
    pub was_idle : sim_interfaces_of name start ≢ [] → a.control_mode ≡ idle
    pub seven : sim_interfaces_of name start ≢ [] → length (sim_interfaces_of name start) ≡ 7

  sim_stop_arm-IsSimStopped :
      (stop : List Name) (name : Name) (a b : SimArm D)
      → sim_stop_arm stop name a ≡ some b
      → IsSimStopped stop name a b
  unfolding sim_stop_arm
  sim_stop_arm-IsSimStopped stop name a b e =
      elim (check_command_mode_type-sim_interfaces_of name stop) [
        | inl (none_there, t) ↦ ground (arith, none_there, t)
        | inr (some_there, t) ↦ ground (arith, some_there, t)
      ]

  sim_start_arm-IsSimStarted :
      (start : List Name) (name : Name) (a b : SimArm D)
      → sim_start_arm start name a ≡ some b
      → IsSimStarted start name a b
  unfolding sim_start_arm
  sim_start_arm-IsSimStarted start name a b e =
      elim (check_command_mode_type-sim_interfaces_of name start) [
        | inl (none_there, t) ↦ ground (arith, none_there, t)
        | inr (some_there, t) ↦ ground (arith, some_there, t, is_idle a.control_mode)
      ]

  -- An accepted request to switch: the arm after the stop loop, and after the start loop.
  abbrev pub IsSimSwitched : List Name → List Name → Name → SimArm D → SimArm D → Type 0
  IsSimSwitched start stop name a c =
      (b : SimArm D) × IsSimStopped stop name a b × IsSimStarted start name b c

  Done-AtArm :
      (f : Name → SimArm D → Option (SimArm D)) (R : Name → SimArm D → SimArm D → Type 0)
      → ((k : Name) (a b : SimArm D) → f k a ≡ some b → R k a b)
      → (arms : SimArms D) → (for_arms f arms).1 ≡ ok
      → Both (AtArm R) arms (for_arms f arms).0
  Done-AtArm f R g arms h = along arms (for_arms f arms).0 (for_arms-ok f arms h)
    where
      along :
          (xs ys : SimArms D)
          → Both (λ p q. (q.0 ≡ p.0) × (f p.0 p.1 ≡ some q.1)) xs ys
          → Both (AtArm R) xs ys
      along [] [] b = tt
      along [] (y ∷ ys) b = absurd b
      along (x ∷ xs) [] b = absurd b
      along (x ∷ xs) (y ∷ ys) b = ((b.0.0, g x.0 x.1 y.1 b.0.1), along xs ys b.1)

  -- If a request to switch is accepted, each arm of the simulation first goes through its part of the
  -- stop request and then through its part of the start request: with interfaces to stop it becomes idle
  -- and loses its effort commands if they were efforts; with interfaces to start, which are seven, it
  -- was idle and takes the mode they ask for; each of the two marks it; without interfaces it stays as
  -- it was. Joints, gripper, state and position commands stay in any case.
  pub sim_prepare_command_mode_switch-IsSimSwitched :
      (start stop : List Name) (arms : SimArms D)
      → (sim_prepare_command_mode_switch start stop arms).1 ≡ ok
      → Both
          (AtArm (IsSimSwitched start stop))
          arms
          (sim_prepare_command_mode_switch start stop arms).0
  unfolding sim_prepare_command_mode_switch
  sim_prepare_command_mode_switch-IsSimSwitched start stop arms h =
      elim (ReturnType-cases (for_arms (sim_stop_arm stop) arms).1) [
        | inr e ↦ absurd (ground (arith, e))
        | inl e ↦
            let arms' = (for_arms (sim_stop_arm stop) arms).0 in
            let started : (for_arms (sim_start_arm start) arms').1 ≡ ok = ground (arith, e) in
            rw (e, sim_prepare_command_mode_switch)
              (Both-trans (IsSimStopped stop) (IsSimStarted start) (IsSimSwitched start stop)
                (λ k a b c p q. (b, p, q)) arms arms' (for_arms (sim_start_arm start) arms').0
                (Done-AtArm (sim_stop_arm stop) (IsSimStopped stop) (sim_stop_arm-IsSimStopped stop)
                  arms e)
                (Done-AtArm (sim_start_arm start) (IsSimStarted start)
                  (sim_start_arm-IsSimStarted start) arms' started))
      ]
