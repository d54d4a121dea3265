-- ===== src/SimGripper/Homing.antt =====
-- The loops of homing in gripper_sim_action_server.cpp end.
use franka_gazebo.Prelude.{
  ℕ, zero, suc, ◌+◌, ◌≤◌, ◌<◌, ◌≡◌, refl, arith, Bool, true, false, Option, none, some, List, [],
  ◌∷◌, All, length, Bool-cases, inl, inr, ◌⊎◌, any, ◌++◌, ◌&&◌, not, if◌then◌else◌,
}
use franka_gazebo.SimGripper.{
  Scale, Widths, max_of, min_of, after_input, close_rounds, open_rounds, sim_gripper_homing,
}

module _ {D : Type 0} (s : Scale D) where
  abbrev pub lower : D → D
  lower w = s.minus w (s.times s.default_speed s.dt)

  abbrev pub raise : D → D
  raise w = s.plus w (s.times s.default_speed s.dt)

  -- The width after n steps down, and after n steps up.
  abbrev pub lowered : ℕ → D → D
  lowered zero w = w
  lowered (suc n) w = lowered n (lower w)

  abbrev pub raised : ℕ → D → D
  raised zero w = w
  raised (suc n) w = raised n (raise w)

  -- From `w`, n steps down reach 0.001. From each width on that way, at most `bound` steps up reach the
  -- maximum.
  abbrev pub Rises : (max_width : D) (bound : ℕ) → D → Type 0
  Rises max_width bound w = (j : ℕ) × (j ≤ bound) × (s.less (raised j w) max_width ≡ false)

  pub record IsStepping (max_width : D) (n bound : ℕ) (w : D) : Type 0 where
    pub closes : s.less s.closed (lowered n w) ≡ false
    pub opens : (k : ℕ) → k ≤ n → Rises max_width bound (lowered k w)

  abbrev pub IsUnset : List Bool → Type 0
  IsUnset flags = All (λ b. b ≡ false) flags

  -- The end of closing: it uses at most one value of the flag more than it has steps, and ends on the way.
  abbrev Closes : (D → Type 0) → List Bool → ℕ → Option (List D × (List Bool × D)) → Type 0
  Closes P flags n none = ⊥
  Closes P flags n (some (xs, (left, low))) =
      (length flags ≤ length left + n + 1) × (IsUnset flags → IsUnset left) × P low

  abbrev Opens : D → List Bool → Option (List D × (List Bool × D)) → Type 0
  Opens max_width flags none = ⊥
  Opens max_width flags (some (xs, (left, high))) = IsUnset flags → s.less high max_width ≡ false

  abbrev Returns : D → List Bool → Option (List D × (D × Bool)) → Type 0
  Returns max_width flags none = ⊥
  Returns max_width flags (some (xs, (high, b))) = IsUnset flags → s.less high max_width ≡ false

  -- Homing returns, with the flag set once or with the fingers not below their maximum.
  abbrev pub Homes : D → List Bool → Option (List D × (D × Bool)) → Type 0
  Homes max_width flags none = ⊥
  Homes max_width flags (some (xs, (high, b))) =
      (any (λ b. b) flags ≡ true) ⊎ (s.less high max_width ≡ false)

  -- A round of closing, whose condition on the width is `t`.
  Closes-round :
      (P : D → Type 0) (t b : Bool) (flags : List Bool) (n : ℕ) (w x : D)
      (r : Option (List D × (List Bool × D)))
      → P w
      → (t ≡ true → (k : ℕ) × (n ≡ suc k) × Closes P flags k r)
      → Closes P (b ∷ flags) n (if t && not b then after_input s x r else some ([], (flags, w)))
  Closes-round P true true flags n w x r p h = (omega arith, λ u. u.1, p)
  Closes-round P false b flags n w x r p h = (omega arith, λ u. u.1, p)
  Closes-round P true false flags n w x none p h = (h refl).2
  Closes-round P true false flags n w x (some (xs, (left, low))) p h =
      let (k, e, c) = h refl in (omega (arith, e, c.0), λ u. c.1 u.1, c.2)

  close-Closes :
      (P : D → Type 0) (flags : List Bool) (n : ℕ) (w : D)
      → s.less s.closed (lowered n w) ≡ false
      → ((k : ℕ) → k ≤ n → P (lowered k w))
      → n < length flags
      → Closes P flags n (close_rounds s flags w)
  unfolding close_rounds
  close-Closes P [] n w c p l = absurd (omega arith)
  close-Closes P (b ∷ flags) zero w c p l =
      Closes-round P (s.less s.closed w) b flags zero w (max_of s s.nought (s.input_of (lower w)))
        (close_rounds s flags (lower w)) (p zero (omega arith)) (λ t. absurd (ground (arith, c, t)))
  close-Closes P (b ∷ flags) (suc n) w c p l =
      Closes-round P (s.less s.closed w) b flags (suc n) w
        (max_of s s.nought (s.input_of (lower w))) (close_rounds s flags (lower w))
        (p zero (omega arith))
        (λ t. (
          n,
          refl,
          close-Closes P flags n (lower w) c (λ k m. p (suc k) (omega (arith, m))) (omega arith),
        ))

  Opens-round :
      (max_width : D) (b : Bool) (flags : List Bool) (w x : D)
      (r : Option (List D × (List Bool × D))) (t : Bool)
      → (s.less w max_width ≡ t)
      → (t ≡ true → Opens max_width flags r)
      → Opens max_width
          (b ∷ flags)
          (if t && not b then after_input s x r else some ([], (flags, w)))
  Opens-round max_width true flags w x r true e h = λ u. absurd (ground arith)
  Opens-round max_width b flags w x r false e h = λ u. e
  Opens-round max_width false flags w x none true e h = h refl
  Opens-round max_width false flags w x (some (xs, (left, high))) true e h = λ u. h refl u.1

  open-Opens :
      (max_width : D) (flags : List Bool) (n : ℕ) (w : D)
      → s.less (raised n w) max_width ≡ false
      → n < length flags
      → Opens max_width flags (open_rounds s max_width flags w)
  unfolding open_rounds
  open-Opens max_width [] n w e l = absurd (omega arith)
  open-Opens max_width (b ∷ flags) zero w e l =
      Opens-round max_width b flags w (min_of s s.full (s.input_of (raise w)))
        (open_rounds s max_width flags (raise w)) (s.less w max_width) refl
        (λ t. absurd (ground (arith, e, t)))
  open-Opens max_width (b ∷ flags) (suc n) w e l =
      Opens-round max_width b flags w (min_of s s.full (s.input_of (raise w)))
        (open_rounds s max_width flags (raise w)) (s.less w max_width) refl
        (λ t. open-Opens max_width flags n (raise w) e (omega arith))

  Returns_opening :
      (max_width : D) (flags left : List Bool) (closing : List D)
      (r : Option (List D × (List Bool × D)))
      → (IsUnset flags → IsUnset left)
      → Opens max_width left r
      → Returns max_width flags (elim r [
        | none ↦ none
        | some (opening, (rest, high)) ↦ some (closing ++ opening, (high, true))
      ])
  Returns_opening max_width flags left closing none u h = h
  Returns_opening max_width flags left closing (some (opening, (rest, high))) u h = λ v. h (u v)

  Returns_closing :
      (max_width : D) (bound : ℕ) (flags : List Bool) (n : ℕ)
      (r : Option (List D × (List Bool × D)))
      → n + bound + 1 < length flags
      → Closes (Rises max_width bound) flags n r
      → Returns max_width flags (elim r [
        | none ↦ none
        | some (closing, (left, low)) ↦ elim (open_rounds s max_width left low) [
          | none ↦ none
          | some (opening, (rest, high)) ↦ some (closing ++ opening, (high, true))
        ]
      ])
  Returns_closing max_width bound flags n none l h = h
  Returns_closing max_width bound flags n (some (closing, (left, low))) l h =
      let (enough, unset, (j, few, e)) = h in
      Returns_opening max_width flags left closing (open_rounds s max_width left low) unset
        (open-Opens max_width left j low e (omega arith))

  any-IsUnset : (flags : List Bool) → any (λ b. b) flags ≡ false → IsUnset flags
  any-IsUnset [] h = tt
  any-IsUnset (b ∷ flags) h = ground (arith, any-IsUnset flags)

  Returns-Homes :
      (max_width : D) (flags : List Bool) (r : Option (List D × (D × Bool)))
      → Returns max_width flags r
      → Homes max_width flags r
  Returns-Homes max_width flags none h = h
  Returns-Homes max_width flags (some (xs, (high, b))) h = elim (Bool-cases (any (λ b. b) flags)) [
    | inl k ↦ inl k
    | inr k ↦ inr (h (any-IsUnset flags k))
  ]

  -- Homing returns, whatever the flag of a cancellation does: where n steps down reach 0.001 from the width
  -- that it starts with, and at most `bound` steps up reach the maximum from each width on that way, both
  -- loops end within n + bound + 2 values of the flag. Where the flag is never set, the fingers do not
  -- compare as below their maximum then.
  pub sim_gripper_homing-Homes :
      (now : Widths D) (n bound : ℕ) (flags : List Bool)
      → IsStepping now.max_width n bound now.width
      → n + bound + 1 < length flags
      → Homes now.max_width flags (sim_gripper_homing s flags now)
  unfolding sim_gripper_homing
  sim_gripper_homing-Homes now n bound flags p l =
      Returns-Homes now.max_width flags (sim_gripper_homing s flags now) (
        Returns_closing now.max_width bound flags n (close_rounds s flags now.width) l (
          close-Closes (Rises now.max_width bound) flags n now.width p.closes p.opens
            (omega arith)))
