-- ===== src/Garmi/Head/Limits.antt =====
-- The limits of head_controller.cpp.
use mathlib.Core.Option.{some-injective}
use franka_gazebo.Prelude.{◌≡◌, refl, true, ◌⊎◌, inl, inr, some, List, [], ◌∷◌, Bool-cases, subst}
use franka_gazebo.Garmi.{Real, limited}
use franka_gazebo.Garmi.Head.{
  HeadController, update_head, command_listener_head, HeadReach, started, told, cycled,
}

module _ {D : Type 0} (r : Real D) where
  -- The number compares as one of the interval from `-limit` to `limit` does, so it is no NaN.
  abbrev pub IsLimited : (limit c : D) → Type 0
  IsLimited limit c =
      (c ≡ limit)
      ⊎ ((r.less c limit ≡ true) × ((c ≡ r.negated limit) ⊎ (r.less (r.negated limit) c ≡ true)))

  limited-IsLimited : (limit x : D) → IsLimited limit (limited r limit x)
  limited-IsLimited limit x = elim (Bool-cases (r.less (r.negated limit) x)) [
    | inl e ↦ elim (Bool-cases (r.less x limit)) [
      | inl f ↦ rw (e, f) (inr (f, inr e))
      | inr f ↦ rw (e, f) (inl refl)
    ]
    | inr e ↦ elim (Bool-cases (r.less (r.negated limit) limit)) [
      | inl f ↦ rw (e, f) (inr (f, inl refl))
      | inr f ↦ rw (e, f) (inl refl)
    ]
  ]

  -- The goals of the joints are within their limits.
  pub record HasLimitedGoals (h : HeadController D) : Type 0 where
    pub pan_goal : IsLimited r.pan_limit h.pan.theta_goal
    pub tilt_goal : IsLimited r.tilt_limit h.tilt.theta_goal

  command_listener_head-HasLimitedGoals :
      (xs : List D) (h k : HeadController D)
      → command_listener_head r xs h ≡ some k
      → HasLimitedGoals k
  unfolding command_listener_head
  command_listener_head-HasLimitedGoals [] h k e = absurd (cc)
  command_listener_head-HasLimitedGoals (x ∷ []) h k e = absurd (cc)
  command_listener_head-HasLimitedGoals (x ∷ y ∷ rest) h k e =
      subst HasLimitedGoals (some-injective _ _ e) record {
        pan_goal = limited-IsLimited r.pan_limit x;
        tilt_goal = limited-IsLimited r.tilt_limit y;
      }

  HeadReach-goals :
      (start h : HeadController D) → HasLimitedGoals start → HeadReach r start h → HasLimitedGoals h
  unfolding update_head
  HeadReach-goals start _ v started = v
  HeadReach-goals start _ v (told {h} {k} xs reach e) =
      command_listener_head-HasLimitedGoals xs h k e
  HeadReach-goals start _ v (cycled {h} period a b reach) =
      let w = HeadReach-goals start h v reach in
      record { pan_goal = w.pan_goal; tilt_goal = w.tilt_goal }

  -- Whatever messages and readings came before, the goals of the head stay within their limits, and the next
  -- cycle sends two torques that compare as numbers from -15 to 15 do, also where a reading is a NaN or the
  -- period is 0.
  pub HeadReach-IsLimited :
      (start h : HeadController D) (period a b : D)
      → HasLimitedGoals start
      → HeadReach r start h
      → HasLimitedGoals h
        × IsLimited r.head_force (update_head r period a b h).1
        × IsLimited r.head_force (update_head r period a b h).2
  unfolding update_head
  HeadReach-IsLimited start h period a b v reach = (
    HeadReach-goals start h v reach,
    limited-IsLimited r.head_force _,
    limited-IsLimited r.head_force _,
  )
