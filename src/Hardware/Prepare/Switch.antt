-- ===== src/Hardware/Prepare/Switch.antt =====
-- `prepare_command_mode_switch` of franka_multi_hardware_interface.cpp as a whole.
use mathlib.Core.Option.{some-injective}
use franka_gazebo.Prelude.{
  nil-cases, true, false, Option, none, some, List, [], ◌∷◌, ◌≡◌, ◌≢◌, arith, Name, Map, ◌⊎◌, inl,
  inr, Both, Option-cases, sym, ◌∙◌,
}
use franka_gazebo.Common.ControlMode.{idle}
use franka_gazebo.Common.Double.{Double}
use franka_gazebo.Common.Names.{joint, check_command_mode_type}
use franka_gazebo.Common.Kinds.{ok, error, kinds_of, ReturnType-cases}
use franka_gazebo.Hardware.{ArmContainer, Arms}
use franka_gazebo.Hardware.Loop.{for_arms, for_arms-ok, for_arms-keeps, for_arms-error, Has, Done}
use franka_gazebo.Hardware.Prepare.{interfaces_of, stop_arm, start_arm, prepare_command_mode_switch}
use franka_gazebo.Hardware.Prepare.Stop.{
  Keeps, Keeps-refl, Keeps-trans, stop_arm-Keeps, stop_arm-unconcerned, stop_arm-IsStopped,
}
use franka_gazebo.Hardware.Prepare.Start.{
  requested, start_arm-Keeps, start_arm-unconcerned, start_arm-IsStarted,
}

abbrev pub AtArm : {A : Type 0} → (Name → A → A → Type 0) → Name × A → Name × A → Type 0
AtArm R p q = (q.0 ≡ p.0) × R p.0 p.1 q.1

pub Both-trans :
    {A : Type 0} (R S T : Name → A → A → Type 0)
    → ((k : Name) (a b c : A) → R k a b → S k b c → T k a c)
    → (xs ys zs : Map A) → Both (AtArm R) xs ys
    → Both (AtArm S) ys zs
    → Both (AtArm T) xs zs
Both-trans R S T f [] [] [] p q = tt
Both-trans R S T f [] [] (z ∷ zs) p q = absurd q
Both-trans R S T f [] (y ∷ ys) zs p q = absurd p
Both-trans R S T f (x ∷ xs) [] zs p q = absurd p
Both-trans R S T f (x ∷ xs) (y ∷ ys) [] p q = absurd q
Both-trans R S T f ((k, x) ∷ xs) ((l, y) ∷ ys) ((m, z) ∷ zs) p q =
    ((q.0.0 ∙ p.0.0, f k x y z p.0.1 (rw p.0.0 at q.0.1)), Both-trans R S T f xs ys zs p.1 q.1)

Has-after :
    {A : Type 0} (f : Name → A → Option A) (P Q : Name → A → Type 0)
    → ((k : Name) (a b : A) → P k a → f k a ≡ some b → Q k b)
    → (xs ys : Map A) → Both (Done f) xs ys
    → Has P xs
    → Has Q ys
Has-after f P Q g [] ys b h = absurd h
Has-after f P Q g (x ∷ xs) [] b h = absurd b
Has-after f P Q g ((k, x) ∷ xs) ((l, y) ∷ ys) b (inl h) = inl (rw b.0.0 (g k x y h b.0.1))
Has-after f P Q g (x ∷ xs) (y ∷ ys) b (inr h) = inr (Has-after f P Q g xs ys b.1 h)

module _ {D : Type 0} ⦃d : Double D⦄ where
  -- What an accepted request to switch means for an arm, in its three cases.
  pub record IsSwitched (start stop : List Name) (name : Name) (a b : ArmContainer D) : Type 0 where
    pub untouched : interfaces_of name start ≡ [] → interfaces_of name stop ≡ [] → b ≡ a
    pub halted :
        interfaces_of name start ≡ []
        → interfaces_of name stop ≢ []
        → (b.control_mode ≡ idle) × (b.switch_cm ≡ true)
    pub started :
        interfaces_of name start ≢ []
        → (b.control_mode
            ≡ requested (check_command_mode_type (interfaces_of name start)) (kinds_of start))
          × ((a.control_mode ≡ idle) ⊎ (interfaces_of name stop ≢ []))
    pub marked :
        interfaces_of name start ≢ []
        → (check_command_mode_type (interfaces_of name start) ≡ joint)
          ⊎ ((kinds_of start).is_effort ≡ false)
        → b.switch_cm ≡ true

  stop_arm-same :
      (stop : List Name) (name : Name) (a b : ArmContainer D)
      → interfaces_of name stop ≡ []
      → stop_arm stop name a ≡ some b
      → b ≡ a
  stop_arm-same stop name a b h p = some-injective _ _ (sym p ∙ stop_arm-unconcerned stop name a h)

  start_arm-same :
      (start : List Name) (name : Name) (a b : ArmContainer D)
      → interfaces_of name start ≡ []
      → start_arm start name a ≡ some b
      → b ≡ a
  start_arm-same start name a b h p =
      some-injective _ _ (sym p ∙ start_arm-unconcerned start name a h)

  was_free :
      (stop : List Name) (name : Name) (a b : ArmContainer D)
      → stop_arm stop name a ≡ some b
      → b.control_mode ≡ idle
      → (a.control_mode ≡ idle) ⊎ (interfaces_of name stop ≢ [])
  was_free stop name a b p h = elim (nil-cases (interfaces_of name stop)) [
    | inl e ↦ inl (rw (stop_arm-same stop name a b e p) at h)
    | inr e ↦ inr e
  ]

  two_steps-IsSwitched :
      (start stop : List Name) (name : Name) (a b c : ArmContainer D)
      → stop_arm stop name a ≡ some b
      → start_arm start name b ≡ some c
      → IsSwitched start stop name a c
  two_steps-IsSwitched start stop name a b c p q = record {
    untouched = λ hs ht. start_arm-same start name b c hs q ∙ stop_arm-same stop name a b ht p;
    halted = λ hs ht.
        let v = stop_arm-IsStopped stop name a b ht p in
        rw (start_arm-same start name b c hs q) (v.idles, v.switches);
    started = λ hs.
        let v = start_arm-IsStarted start name b c hs q in
        (v.mode, was_free stop name a b p v.was_idle);
    marked = λ hs. (start_arm-IsStarted start name b c hs q).switches;
  }

  stop_arm-busy :
      (start stop : List Name) (name : Name) (a b : ArmContainer D)
      → (a.control_mode ≢ idle) × (interfaces_of name stop ≡ []) × (interfaces_of name start ≢ [])
      → stop_arm stop name a ≡ some b
      → start_arm start name b ≡ none
  stop_arm-busy start stop name a b h p = elim (Option-cases (start_arm start name b)) [
    | inl e ↦ e
    | inr (c, e) ↦
        let idles = (start_arm-IsStarted start name b c h.2 e).was_idle in
        absurd (h.0 (rw (stop_arm-same stop name a b h.1 p) at idles))
  ]

  -- Every arm keeps its robot, its state and its joint and Cartesian position commands through a
  -- request to switch, whether the request is accepted or refused half way.
  pub prepare_command_mode_switch-Keeps :
      (start stop : List Name) (arms : Arms D)
      → Both (AtArm (λ k. Keeps)) arms (prepare_command_mode_switch start stop arms).0
  unfolding prepare_command_mode_switch
  prepare_command_mode_switch-Keeps start stop arms =
      let stops = for_arms-keeps Keeps (stop_arm stop) Keeps-refl (stop_arm-Keeps stop) arms in
      elim (ReturnType-cases (for_arms (stop_arm stop) arms).1) [
        | inr e ↦ rw (e, prepare_command_mode_switch) stops
        | inl e ↦
            rw (e, prepare_command_mode_switch)
              (Both-trans (λ k. Keeps) (λ k. Keeps) (λ k. Keeps) (λ k a b c p q. Keeps-trans p q)
                arms (for_arms (stop_arm stop) arms).0
                (for_arms (start_arm start) (for_arms (stop_arm stop) arms).0).0 stops
                (for_arms-keeps Keeps (start_arm start) Keeps-refl (start_arm-Keeps start)
                  (for_arms (stop_arm stop) arms).0))
      ]

  -- If a request to switch is accepted, every arm is switched as its own part of the request says: an
  -- arm outside the request is as before; an arm with interfaces to stop and none to start is idle and
  -- marked for the switch; an arm with interfaces to start has the requested mode, and it was idle
  -- before or had interfaces to stop; it is marked for the switch unless the request is a Cartesian one
  -- for efforts.
  pub prepare_command_mode_switch-IsSwitched :
      (start stop : List Name) (arms : Arms D)
      → (prepare_command_mode_switch start stop arms).1 ≡ ok
      → Both (AtArm (IsSwitched start stop)) arms (prepare_command_mode_switch start stop arms).0
  unfolding prepare_command_mode_switch
  prepare_command_mode_switch-IsSwitched start stop arms h =
      elim (ReturnType-cases (for_arms (stop_arm stop) arms).1) [
        | inr e ↦ absurd (ground arith)
        | inl e ↦
            rw (e, prepare_command_mode_switch)
              (Both-trans (λ k a b. stop_arm stop k a ≡ some b)
                (λ k a b. start_arm start k a ≡ some b) (IsSwitched start stop)
                (two_steps-IsSwitched start stop) arms (for_arms (stop_arm stop) arms).0
                (for_arms (start_arm start) (for_arms (stop_arm stop) arms).0).0
                (for_arms-ok (stop_arm stop) arms e)
                (for_arms-ok (start_arm start) (for_arms (stop_arm stop) arms).0 (ground arith)))
      ]

  -- A request that starts a controller on an arm which is in another mode than idle, and stops none of
  -- its interfaces, is refused.
  pub prepare_command_mode_switch_busy :
      (start stop : List Name) (arms : Arms D)
      → Has
          (λ name a.
            (a.control_mode ≢ idle)
            × (interfaces_of name stop ≡ [])
            × (interfaces_of name start ≢ []))
          arms
      → (prepare_command_mode_switch start stop arms).1 ≡ error
  unfolding prepare_command_mode_switch
  prepare_command_mode_switch_busy start stop arms h =
      elim (ReturnType-cases (for_arms (stop_arm stop) arms).1) [
        | inr e ↦ rw (e, prepare_command_mode_switch) e
        | inl e ↦
            rw (e, prepare_command_mode_switch)
              ((for_arms-error (start_arm start) (for_arms (stop_arm stop) arms).0).1 (
                Has-after (stop_arm stop) _ _ (stop_arm-busy start stop) arms
                  (for_arms (stop_arm stop) arms).0 (for_arms-ok (stop_arm stop) arms e) h))
      ]
