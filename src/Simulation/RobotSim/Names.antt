-- ===== src/Simulation/RobotSim/Names.antt =====
-- The names of actuators in robot_sim.cpp: the arm's name with one of 22 endings.
use franka_gazebo.Prelude.{
  ℕ, ◌+◌, ◌≡◌, ◌≢◌, refl, sym, ap, subst, arith, Bool, true, ◌&&◌, ◌||◌, not, some, List, [], ◌∷◌,
  ◌++◌, Name, codes, same, same-eq, same_refl, all, All, Both, length, length-append, append_assoc,
  Bool-cases, inl, inr, Option-cases,
}
use franka_gazebo.Hardware.Init.{to_string}
use franka_gazebo.Simulation.{Actuators}
use franka_gazebo.Simulation.Engine.Driven.{Fresh, Distinct, numbers}
use franka_gazebo.Simulation.RobotSim.{
  MjModel, actuator, trq_name, pos_name, vel_name, find_actuators,
}

-- `t` stands at the end of `s`.
abbrev is_suffix : Name → Name → Bool
is_suffix t [] = same t []
is_suffix t (c ∷ s) = same t (c ∷ s) || is_suffix t s

-- One of the names ends with the other.
abbrev clash : Name → Name → Bool
clash s t = is_suffix t s || is_suffix s t

is_suffix_self : (t : Name) → is_suffix t t ≡ true
is_suffix_self [] = refl
is_suffix_self (c ∷ t) = ground (arith, same_refl (c ∷ t))

is_suffix-append : (b t : Name) → is_suffix t (b ++ t) ≡ true
is_suffix-append [] t = is_suffix_self t
is_suffix-append (c ∷ b) t = ground (arith, is_suffix-append b t)

tail_equal : (c d : ℕ) (s t : Name) → c ∷ s ≡ d ∷ t → s ≡ t
tail_equal c d s t h = cc

clash-append : (a b s t : Name) → a ++ s ≡ b ++ t → clash s t ≡ true
clash-append [] b s t h =
    let e : is_suffix t s ≡ true =
      subst (λ u. is_suffix t u ≡ true) (sym h) (is_suffix-append b t) in
    ground (arith, e)
clash-append (c ∷ a) [] s t h =
    let e : is_suffix s t ≡ true =
      subst (λ u. is_suffix s u ≡ true) h (is_suffix-append (c ∷ a) s) in
    ground (arith, e)
clash-append (c ∷ a) (d ∷ b) s t h = clash-append a b s t (tail_equal c d (a ++ s) (b ++ t) h)

append-equal : (a b s : Name) → a ++ s ≡ b ++ s → a ≡ b
append-equal [] [] s h = refl
append-equal [] (d ∷ b) s h = absurd (omega (arith, ap length h, length-append b s))
append-equal (c ∷ a) [] s h = absurd (omega (arith, ap length h, length-append a s))
append-equal (c ∷ a) (d ∷ b) s h =
    let rest = append-equal a b s (tail_equal c d (a ++ s) (b ++ s) h) in cc

-- The endings for the joints with these numbers, in the order of `numbers`.
abbrev pub endings : List ℕ → List Name
endings [] = []
endings (n ∷ ns) =
    (codes "_act_trq" ++ to_string (n + 1))
    ∷ (codes "_act_pos" ++ to_string (n + 1))
    ∷ (codes "_act_vel" ++ to_string (n + 1))
    ∷ endings ns

-- No name of the list ends with another.
abbrev pub apart : List Name → Bool
apart [] = true
apart (s ∷ ss) = all (λ t. not (clash s t)) ss && apart ss

-- A name of the one list ends with one of the other only if they are equal.
abbrev pub compatible : List Name → List Name → Bool
compatible [] ts = true
compatible (s ∷ ss) ts = all (λ t. same s t || not (clash s t)) ts && compatible ss ts

-- MuJoCo gives different objects of a kind different numbers, and a name belongs to one of them.
abbrev pub HasUniqueActuators : MjModel → Type 0
HasUniqueActuators m =
    (s t : Name) (n : ℕ)
    → m.name_to_id actuator s ≡ some n
    → m.name_to_id actuator t ≡ some n
    → s ≡ t

module _ (m : MjModel) where
  abbrev pub IsAt : (robot s : Name) → ℕ → Type 0
  IsAt robot s n = m.name_to_id actuator (robot ++ s) ≡ some n

  find_actuators-IsAt :
      (robot : Name) (n : ℕ) (a : Actuators)
      → find_actuators m robot n ≡ some a
      → (m.name_to_id actuator (trq_name robot n) ≡ some a.trq)
        × (m.name_to_id actuator (pos_name robot n) ≡ some a.pos)
        × (m.name_to_id actuator (vel_name robot n) ≡ some a.vel)
  unfolding find_actuators
  find_actuators-IsAt robot n a h = elim (Option-cases (m.name_to_id actuator (trq_name robot n))) [
    | inl e ↦ absurd (ground (arith, e))
    | inr (t, e) ↦ elim (Option-cases (m.name_to_id actuator (vel_name robot n))) [
      | inl f ↦ absurd (ground (arith, e, f))
      | inr (v, f) ↦ elim (Option-cases (m.name_to_id actuator (pos_name robot n))) [
        | inl g ↦ absurd (ground (arith, e, f, g))
        | inr (p, g) ↦ ground (arith, e, f, g)
      ]
    ]
  ]

  IsAt-ending :
      (robot kind : Name) (n k : ℕ)
      → m.name_to_id actuator (robot ++ kind ++ to_string (n + 1)) ≡ some k
      → IsAt robot (kind ++ to_string (n + 1)) k
  IsAt-ending robot kind n k h =
      subst (λ s. m.name_to_id actuator s ≡ some k) (append_assoc robot kind (to_string (n + 1))) h

  pub numbers-IsAt :
      (robot : Name) (ns : List ℕ) (js : List Actuators)
      → Both (λ n a. find_actuators m robot n ≡ some a) ns js
      → Both (IsAt robot) (endings ns) (numbers js)
  numbers-IsAt robot [] [] h = tt
  numbers-IsAt robot [] (j ∷ js) h = elim h [ ]
  numbers-IsAt robot (n ∷ ns) [] h = elim h [ ]
  numbers-IsAt robot (n ∷ ns) (j ∷ js) h =
      let (t, p, v) = find_actuators-IsAt robot n j h.0 in
      (
        IsAt-ending robot (codes "_act_trq") n j.trq t,
        (
          IsAt-ending robot (codes "_act_pos") n j.pos p,
          (IsAt-ending robot (codes "_act_vel") n j.vel v, numbers-IsAt robot ns js h.1),
        ),
      )

  module _ (unique : HasUniqueActuators m) where
    Fresh-apart :
        (robot s : Name) (n : ℕ) (ss : List Name) (ns : List ℕ)
        → IsAt robot s n
        → Both (IsAt robot) ss ns
        → all (λ t. not (clash s t)) ss ≡ true
        → Fresh n ns
    Fresh-apart robot s n [] [] h hs c = tt
    Fresh-apart robot s n [] (k ∷ ns) h hs c = elim hs [ ]
    Fresh-apart robot s n (t ∷ ss) [] h hs c = elim hs [ ]
    Fresh-apart robot s n (t ∷ ss) (k ∷ ns) h hs c = (
      λ e.
          let other : IsAt robot t n = subst (IsAt robot t) e hs.0 in
          absurd (
            ground
              (arith, clash-append robot robot s t (unique (robot ++ s) (robot ++ t) n h other))),
      Fresh-apart robot s n ss ns h hs.1 (ground arith),
    )

    pub Distinct-apart :
        (robot : Name) (ss : List Name) (ns : List ℕ)
        → Both (IsAt robot) ss ns
        → apart ss ≡ true
        → Distinct ns
    Distinct-apart robot [] [] hs c = tt
    Distinct-apart robot [] (n ∷ ns) hs c = elim hs [ ]
    Distinct-apart robot (s ∷ ss) [] hs c = elim hs [ ]
    Distinct-apart robot (s ∷ ss) (n ∷ ns) hs c = (
      Fresh-apart robot s n ss ns hs.0 hs.1 (ground arith),
      Distinct-apart robot ss ns hs.1 (ground arith),
    )

    names_apart :
        (robot other s t : Name)
        → robot ≢ other
        → (same s t || not (clash s t)) ≡ true
        → robot ++ s ≢ other ++ t
    names_apart robot other s t ne c e = elim (Bool-cases (same s t)) [
      | inl q ↦
          let eq : s ≡ t = same-eq s t q in
          ne (append-equal robot other t (subst (λ u. robot ++ u ≡ other ++ t) eq e))
      | inr q ↦ absurd (ground (arith, q, clash-append robot other s t e))
    ]

    Fresh-other :
        (robot other s : Name) (n : ℕ) (ts : List Name) (ns : List ℕ)
        → robot ≢ other
        → IsAt robot s n
        → Both (IsAt other) ts ns
        → all (λ t. same s t || not (clash s t)) ts ≡ true
        → Fresh n ns
    Fresh-other robot other s n [] [] ne h hs c = tt
    Fresh-other robot other s n [] (k ∷ ns) ne h hs c = elim hs [ ]
    Fresh-other robot other s n (t ∷ ts) [] ne h hs c = elim hs [ ]
    Fresh-other robot other s n (t ∷ ts) (k ∷ ns) ne h hs c = (
      λ e.
          let there : IsAt other t n = subst (IsAt other t) e hs.0 in
          names_apart robot other s t ne (ground arith)
            (unique (robot ++ s) (other ++ t) n h there),
      Fresh-other robot other s n ts ns ne h hs.1 (ground arith),
    )

    pub All-Fresh :
        (robot other : Name) (ss ts : List Name) (ks ns : List ℕ)
        → robot ≢ other
        → Both (IsAt robot) ss ks
        → Both (IsAt other) ts ns
        → compatible ss ts ≡ true
        → All (λ k. Fresh k ns) ks
    All-Fresh robot other [] ts [] ns ne hs ht c = tt
    All-Fresh robot other [] ts (k ∷ ks) ns ne hs ht c = elim hs [ ]
    All-Fresh robot other (s ∷ ss) ts [] ns ne hs ht c = elim hs [ ]
    All-Fresh robot other (s ∷ ss) ts (k ∷ ks) ns ne hs ht c = (
      Fresh-other robot other s k ts ns ne hs.0 ht (ground arith),
      All-Fresh robot other ss ts ks ns ne hs.1 ht (ground arith),
    )
