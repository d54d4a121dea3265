-- ===== src/SimGripper/Driving.antt =====
-- The inputs that the motions of gripper_sim_action_server.cpp write.
use franka_gazebo.Prelude.{
  ap, ℕ, zero, suc, ◌+◌, ◌≤◌, ◌≡◌, refl, arith, Bool, true, false, List, [], ◌∷◌, All, length, inl,
  inr, ◌⊎◌, subst, Bool-cases, if◌then◌else◌,
}
use franka_gazebo.SimGripper.{
  Scale, Widths, clamped, drive_rounds, sim_gripper_move, sim_gripper_grasp, steps_of, delta_of,
}

module _ {D : Type 0} (s : Scale D) where
  -- An input that is 0 or compares as above 0, and does not compare as above 255, so it is no NaN.
  abbrev pub InRange : D → Type 0
  InRange x = ((x ≡ s.nought) ⊎ (s.less s.nought x ≡ true)) × (s.less s.full x ≡ false)

  -- What the source uses of the order of `double`.
  pub record IsOrdered : Type 0 where
    pub nought_full : s.less s.nought s.full ≡ true
    pub full_self : s.less s.full s.full ≡ false
    pub full_nought : s.less s.full s.nought ≡ false

  -- The flag is not set in the round of any input, from the round `count` on.
  unfoldable pub IsUnsetFor : (canceled : ℕ → Bool) (count : ℕ) → List D → Type 0
  IsUnsetFor canceled count [] = Unit
  IsUnsetFor canceled count (x ∷ inputs) =
      (canceled count ≡ false) × IsUnsetFor canceled (count + 1) inputs

  -- The inputs of a motion of at most `n` rounds: all are in range, each is of a round in which the flag is
  -- not set, and they end with the last round or before one in which it is set.
  pub record IsDriven (canceled : ℕ → Bool) (n : ℕ) (inputs : List D) : Type 0 where
    pub in_range : All InRange inputs
    pub no_more : length inputs ≤ n
    pub unset : IsUnsetFor canceled 0 inputs
    pub ended : (length inputs ≡ n) ⊎ (canceled (length inputs) ≡ true)

  clamped-InRange : IsOrdered → (w : D) → InRange (clamped s w)
  clamped-InRange o w = elim (Bool-cases (s.less s.nought (s.input_of w))) [
    | inl e ↦ elim (Bool-cases (s.less s.full (s.input_of w))) [
      | inl f ↦ rw (e, f) (inr o.nought_full, o.full_self)
      | inr f ↦ rw (e, f) (inr e, f)
    ]
    | inr e ↦ rw (e, o.full_nought) (inl refl, o.full_nought)
  ]

  drive-InRange :
      (o : IsOrdered) (canceled : ℕ → Bool) (left count : ℕ) (delta w : D)
      → All InRange (drive_rounds s canceled left count delta w)
  unfolding drive_rounds
  drive-InRange o canceled zero count delta w = tt
  drive-InRange o canceled (suc left) count delta w = ground (
    arith,
    clamped-InRange o (s.plus w delta),
    drive-InRange o canceled left (count + 1) delta (s.plus w delta),
  )

  drive-no_more :
      (canceled : ℕ → Bool) (left count : ℕ) (delta w : D)
      → length (drive_rounds s canceled left count delta w) ≤ left
  unfolding drive_rounds
  drive-no_more canceled zero count delta w = ground arith
  drive-no_more canceled (suc left) count delta w =
      ground (arith, drive-no_more canceled left (count + 1) delta (s.plus w delta))

  drive-unset :
      (canceled : ℕ → Bool) (left count : ℕ) (delta w : D)
      → IsUnsetFor canceled count (drive_rounds s canceled left count delta w)
  unfolding drive_rounds IsUnsetFor
  drive-unset canceled zero count delta w = tt
  drive-unset canceled (suc left) count delta w =
      ground (arith, drive-unset canceled left (count + 1) delta (s.plus w delta))

  plus_suc : (m n : ℕ) → (m + 1) + n ≡ m + suc n
  plus_suc m n = omega arith

  abbrev Ended : (canceled : ℕ → Bool) (left count : ℕ) → List D → Type 0
  Ended canceled left count inputs =
      (length inputs ≡ left) ⊎ (canceled (count + length inputs) ≡ true)

  zero_plus : (m : ℕ) → 0 + m ≡ m
  zero_plus m = omega arith

  plus_zero : (m : ℕ) → m ≡ m + 0
  plus_zero m = omega arith

  Ended-round :
      (canceled : ℕ → Bool) (left count : ℕ) (x : D) (rest : List D) (t : Bool)
      → canceled count ≡ t
      → Ended canceled left (count + 1) rest
      → Ended canceled (suc left) count (if t then [] else x ∷ rest)
  Ended-round canceled left count x rest true e h =
      inr (subst (λ k. canceled k ≡ true) (plus_zero count) e)
  Ended-round canceled left count x rest false e (inl h) = inl (ap suc h)
  Ended-round canceled left count x rest false e (inr h) =
      inr (subst (λ k. canceled k ≡ true) (plus_suc count (length rest)) h)

  drive-Ended :
      (canceled : ℕ → Bool) (left count : ℕ) (delta w : D)
      → Ended canceled left count (drive_rounds s canceled left count delta w)
  unfolding drive_rounds
  drive-Ended canceled zero count delta w = inl refl
  drive-Ended canceled (suc left) count delta w =
      let next = s.plus w delta in
      Ended-round canceled left count (clamped s next)
        (drive_rounds s canceled left (count + 1) delta next) (canceled count) refl
        (drive-Ended canceled left (count + 1) delta next)

  drive-IsDriven :
      (o : IsOrdered) (canceled : ℕ → Bool) (n : ℕ) (delta w : D)
      → IsDriven canceled n (drive_rounds s canceled n 0 delta w)
  drive-IsDriven o canceled n delta w = record {
    in_range = drive-InRange o canceled n 0 delta w;
    no_more = drive-no_more canceled n 0 delta w;
    unset = drive-unset canceled n 0 delta w;
    ended =
        subst (λ k. (length (drive_rounds s canceled n 0 delta w) ≡ n) ⊎ (canceled k ≡ true))
          (zero_plus (length (drive_rounds s canceled n 0 delta w)))
          (drive-Ended canceled n 0 delta w);
  }

  -- Where 0 and 255 compare as numbers do, moving and grasping keep every input of the fingers' actuator
  -- between 0 and 255 and never let it be a NaN, whatever the goal and even if the width becomes a NaN.
  -- Each writes one input in each
  -- round, in no round that finds the flag of a cancellation set, and stops after the rounds of its count
  -- or before the first such round.
  pub sim_gripper-IsDriven :
      IsOrdered
      → (canceled : ℕ → Bool) (now : Widths D) (width speed : D)
      → IsDriven canceled
          (s.rounds_of (steps_of s now width speed))
          (sim_gripper_move s canceled now width speed).0
        × IsDriven canceled
            (s.grasp_rounds_of (steps_of s now width speed))
            (sim_gripper_grasp s canceled now width speed).0
  unfolding sim_gripper_move sim_gripper_grasp
  sim_gripper-IsDriven o canceled now width speed = (
    drive-IsDriven o canceled (s.rounds_of (steps_of s now width speed))
        (delta_of s now width speed) now.width,
    drive-IsDriven o canceled (s.grasp_rounds_of (steps_of s now width speed))
        (delta_of s now width speed) now.width,
  )
