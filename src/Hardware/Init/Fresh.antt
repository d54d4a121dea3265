-- ===== src/Hardware/Init/Fresh.antt =====
-- The arms that `on_init` of franka_multi_hardware_interface.cpp sets up.
use mathlib.Core.Option.{some-injective}
use franka_gazebo.Prelude.{
  ℕ, zero, suc, ◌+◌, ◌*◌, false, none, some, [], ◌∷◌, ◌++◌, ◌≡◌, arith, Name, codes, Map, find,
  assign, length, All, Option-cases, inl, inr,
}
use franka_gazebo.Common.ControlMode.{idle}
use franka_gazebo.Common.Double.{Double}
use franka_gazebo.Robot.{construct, read}
use franka_gazebo.Robot.Invariant.{IsSound, construct-IsSound, read-IsSound}
use franka_gazebo.Hardware.{ArmContainer, Arms}
use franka_gazebo.Hardware.Init.{
  HardwareInfo, to_string, Outside, connected_arm, init_arms, on_init,
}

pub length-assign {ℓ} :
    {V : Type ℓ} (k : Name) (v : V) (m : Map V)
    → find k m ≡ none
    → length (assign k v m) ≡ length m + 1
length-assign k v [] h = omega arith
length-assign k v ((j, w) ∷ m) h = ground (arith, length-assign k v m)

pub assign-All :
    {V : Type 0} (P : V → Type 0) (k : Name) (v : V) (m : Map V)
    → P v
    → All (λ p. P p.1) m
    → All (λ p. P p.1) (assign k v m)
assign-All P k v [] h hs = (h, tt)
assign-All P k v ((j, w) ∷ m) h hs = ground (arith, assign-All P k v m h)

module _ {D : Type 0} ⦃d : Double D⦄ where
  -- How an arm leaves `on_init`.
  pub record IsFresh (a : ArmContainer D) : Type 0 where
    pub sound : IsSound a.robot
    pub mode : a.control_mode ≡ idle
    pub unmarked : a.switch_cm ≡ false

  connected_arm-IsFresh :
      (o : Outside D) (name ip : Name) (a : ArmContainer D)
      → connected_arm o name ip ≡ some a
      → IsFresh a
  connected_arm-IsFresh o name ip a e =
      elim (Option-cases (construct (o.connect ip) o.open_state o.open_mode o.home)) [
        | inl none_there ↦ absurd (ground arith)
        | inr (r, made) ↦
            let v = construct-IsSound (o.connect ip) o.open_state o.open_mode o.home made in
            elim (Option-cases (read (o.once ip) r)) [
              | inl q ↦ absurd (ground (arith, made, q))
              | inr (x, q) ↦ ground (arith, made, q, read-IsSound (o.once ip) r x v q)
            ]
      ]

  -- What a round of the loop that succeeds has found.
  init_arms_round :
      (o : Outside D) (params : Map Name) (n i : ℕ) (arms new : Arms D)
      → init_arms o params (suc n) i arms ≡ some new
      → (name : Name) × (ip : Name) × (a : ArmContainer D) × (find name arms ≡ none)
        × (connected_arm o name ip ≡ some a)
        × (init_arms o params n (i + 1) (assign name a arms) ≡ some new)
  unfolding init_arms
  init_arms_round o params n i arms new e =
      elim (Option-cases (find (codes "ns_" ++ to_string i) params)) [
        | inl p ↦ absurd (ground arith)
        | inr (name, p) ↦ elim (Option-cases (find name arms)) [
          | inr (other, q) ↦ absurd (ground (arith, p, q))
          | inl q ↦ elim (Option-cases (find (codes "robot_ip_" ++ to_string i) params)) [
            | inl r ↦ absurd (ground (arith, p, q, r))
            | inr (ip, r) ↦ elim (Option-cases (connected_arm o name ip)) [
              | inl t ↦ absurd (ground (arith, p, q, r, t))
              | inr (a, t) ↦ (name, ip, a, q, t, ground (arith, p, q, r, t))
            ]
          ]
        ]
      ]

  init_arms-IsFresh :
      (o : Outside D) (params : Map Name) (n i : ℕ) (arms new : Arms D)
      → init_arms o params n i arms ≡ some new
      → All (λ p. IsFresh p.1) arms
      → (length new ≡ length arms + n) × All (λ p. IsFresh p.1) new
  unfolding init_arms
  init_arms-IsFresh o params zero i arms new e h =
      let same = some-injective _ _ e in (rw (← same) (omega arith), rw (← same) h)
  init_arms-IsFresh o params (suc n) i arms new e h =
      let (name, ip, a, free, made, rest) = init_arms_round o params n i arms new e in
      let (size, fresh) =
        init_arms-IsFresh o params n (i + 1) (assign name a arms) new rest
          (assign-All IsFresh name a arms (connected_arm-IsFresh o name ip a made) h) in
      (omega (arith, size, length-assign {0} name a arms free), fresh)

  -- If `on_init` succeeds, there are seven joints for each robot that was announced and as many arms as
  -- robots; every arm is idle, not marked for a switch, and has a sound robot.
  pub on_init-IsFresh :
      (o : Outside D) (count : ℕ) (info : HardwareInfo) (arms : Arms D)
      → on_init o count info ≡ some arms
      → (length info.joints ≡ 7 * count) × (length arms ≡ count) × All (λ p. IsFresh p.1) arms
  unfolding on_init
  on_init-IsFresh o count info arms e =
      elim (Option-cases (init_arms o info.hardware_parameters count 1 [])) [
        | inl p ↦ absurd (ground arith)
        | inr (made, p) ↦
            let (size, fresh) = init_arms-IsFresh o info.hardware_parameters count 1 [] made p tt in
            let same : made ≡ arms = ground (arith, p) in
            (ground arith, rw (← same) (omega (arith, size)), rw (← same) fresh)
      ]
