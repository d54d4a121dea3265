-- ===== src/ControllerBase/Moving.antt =====
-- When a controller of panda_controller_base.h is moving, and what it moves to.
use franka_gazebo.Prelude.{
  ℕ, ◌+◌, ◌^◌, ◌-◌, ◌≤◌, ◌<◌, ◌≡◌, refl, arith, Bool, false, ◌||◌, Option, none, some, List, [],
  ◌∷◌, ltb, length, inl, inr, Bool-cases, ap,
}
use franka_gazebo.Prelude.{subst}
use franka_gazebo.ControllerBase.{
  set_buffer, update_buffer, PandaControllerBase, set_desired_pose_buffered, start,
  compute_base_tau, moving,
}

-- The offset of the last cycle, each cycle with its pose and offset.
abbrev pub last_offset : {Pose : Type 0} → Bool → List (Pose × Bool) → Bool
last_offset b [] = b
last_offset b ((pose, offset) ∷ rest) = last_offset offset rest

module _ {Pose Parameters : Type 0} where
  -- A sequence of cycles; `none` if the count of one overflows.
  unfoldable pub cycles :
      List (Pose × Bool)
      → PandaControllerBase Pose Parameters
      → Option (PandaControllerBase Pose Parameters)
  cycles [] c = some c
  cycles ((pose, offset) ∷ rest) c = elim (compute_base_tau pose offset c) [
    | none ↦ none
    | some k ↦ cycles rest k
  ]

  -- A controller that follows the target `p` for `n` cycles.
  pub record IsFollowing (p : Pose) (n : ℕ) (offset : Bool)
      (c : PandaControllerBase Pose Parameters) : Type 0 where
    pub target : c.desired.content ≡ p
    pub settled : c.desired.needs_update ≡ false
    pub timeout : c.move_timeout ≡ n
    pub offset_known : c.has_offset ≡ offset

  unfoldable Follows : Pose → ℕ → Bool → Option (PandaControllerBase Pose Parameters) → Type 0
  Follows p n offset none = ⊥
  Follows p n offset (some c) = IsFollowing p n offset c

  -- The target that is followed, and whether the controller is moving.
  unfoldable pub MovesTo : Pose → Bool → Option (PandaControllerBase Pose Parameters) → Type 0
  MovesTo p is_moving none = ⊥
  MovesTo p is_moving (some c) = (c.desired.content ≡ p) × (moving c ≡ is_moving)

  follow_on :
      (p : Pose) (n : ℕ) (b : Bool) (pose : Pose) (offset : Bool)
      (c : PandaControllerBase Pose Parameters)
      → n < 2 ^ 31 - 1
      → IsFollowing p n b c
      → Follows p (n + 1) offset (compute_base_tau pose offset c)
  unfolding compute_base_tau Follows update_buffer
  follow_on p n b pose offset c l h = ground arith

  take_up :
      (p : Pose) (pose : Pose) (offset : Bool) (c : PandaControllerBase Pose Parameters)
      → c.move_timeout < 2 ^ 31 - 1
      → Follows p 0 offset (compute_base_tau pose offset (set_desired_pose_buffered p c))
  unfolding compute_base_tau Follows update_buffer set_desired_pose_buffered set_buffer
  take_up p pose offset c l = ground arith

  -- One more cycle, which gave `r`, in front of others.
  then_Follows :
      (p : Pose) (n : ℕ) (b : Bool) (m : ℕ) (last : Bool)
      (go : PandaControllerBase Pose Parameters → Option (PandaControllerBase Pose Parameters))
      (r : Option (PandaControllerBase Pose Parameters))
      → ((c : PandaControllerBase Pose Parameters) → IsFollowing p n b c → Follows p m last (go c))
      → Follows p n b r
      → Follows p m last (elim r [ none ↦ none | some k ↦ go k ])
  unfolding Follows
  then_Follows p n b m last go none each h = h
  then_Follows p n b m last go (some c) each h = each c h

  cycles-Follows :
      (p : Pose) (n : ℕ) (b : Bool) (later : List (Pose × Bool))
      (c : PandaControllerBase Pose Parameters)
      → n + length later < 2 ^ 31
      → IsFollowing p n b c
      → Follows p (n + length later) (last_offset b later) (cycles later c)
  unfolding cycles Follows
  cycles-Follows p n b [] c l h = subst (λ k. IsFollowing p k b c) (omega arith) h
  cycles-Follows p n b ((pose, offset) ∷ rest) c l h =
      subst (λ k. Follows p k (last_offset offset rest) (cycles ((pose, offset) ∷ rest) c))
        (omega arith)
        (then_Follows p (n + 1) offset ((n + 1) + length rest) (last_offset offset rest)
          (cycles rest) (compute_base_tau pose offset c)
          (λ k f. cycles-Follows p (n + 1) offset rest k (omega arith) f)
          (follow_on p n b pose offset c (omega arith) h))

  Follows-MovesTo :
      (p : Pose) (n : ℕ) (b : Bool) (r : Option (PandaControllerBase Pose Parameters))
      → Follows p n b r
      → MovesTo p (ltb n 3 || b) r
  unfolding Follows MovesTo moving
  Follows-MovesTo p n b none h = h
  Follows-MovesTo p n b (some c) h = ground arith

  -- A new target is followed from the first cycle after it was set, whatever was pending before: every
  -- one of at most 2 ^ 31 cycles succeeds, if the first does not overflow, the desired pose is the new
  -- one, and the controller is moving exactly for the first three cycles, or while it has an offset.
  pub cycles-MovesTo :
      (p : Pose) (pose : Pose) (offset : Bool) (later : List (Pose × Bool))
      (c : PandaControllerBase Pose Parameters)
      → c.move_timeout < 2 ^ 31 - 1
      → length later < 2 ^ 31
      → MovesTo p
          (ltb (length later) 3 || last_offset offset later)
          (cycles ((pose, offset) ∷ later) (set_desired_pose_buffered p c))
  unfolding cycles
  cycles-MovesTo p pose offset later c l m =
      Follows-MovesTo p (length later) (last_offset offset later)
        (cycles ((pose, offset) ∷ later) (set_desired_pose_buffered p c))
        (then_Follows p 0 offset (length later) (last_offset offset later) (cycles later)
          (compute_base_tau pose offset (set_desired_pose_buffered p c))
          (λ k f.
            subst (λ n. Follows p n (last_offset offset later) (cycles later k)) (omega arith)
              (cycles-Follows p 0 offset later k (omega arith) f))
          (take_up p pose offset c l))

  compute_full :
      (pose : Pose) (offset : Bool) (c : PandaControllerBase Pose Parameters)
      → 2 ^ 31 ≤ c.move_timeout + 1
      → compute_base_tau pose offset c ≡ none
  unfolding compute_base_tau
  compute_full pose offset c l = ground arith

  then_none :
      (p : Pose) (n : ℕ) (b : Bool)
      (go : PandaControllerBase Pose Parameters → Option (PandaControllerBase Pose Parameters))
      (r : Option (PandaControllerBase Pose Parameters))
      → ((c : PandaControllerBase Pose Parameters) → IsFollowing p n b c → go c ≡ none)
      → Follows p n b r
      → elim r [ none ↦ none | some k ↦ go k ] ≡ none
  unfolding Follows
  then_none p n b go none each h = refl
  then_none p n b go (some c) each h = each c h

  cycles_full :
      (p : Pose) (n : ℕ) (b : Bool) (later : List (Pose × Bool))
      (c : PandaControllerBase Pose Parameters)
      → 2 ^ 31 ≤ n + length later
      → n < 2 ^ 31
      → IsFollowing p n b c
      → cycles later c ≡ none
  unfolding cycles
  cycles_full p n b [] c l m h = ground arith
  cycles_full p n b ((pose, offset) ∷ rest) c l m h = elim (Bool-cases (ltb n (2 ^ 31 - 1))) [
    | inl k ↦
        then_none p (n + 1) offset (cycles rest) (compute_base_tau pose offset c)
          (λ x f. cycles_full p (n + 1) offset rest x (omega arith) (ground arith) f)
          (follow_on p n b pose offset c (ground arith) h)
    | inr k ↦
        ap (λ r. elim r [ none ↦ none | some x ↦ cycles rest x ])
          (compute_full pose offset c (ground arith))
  ]

  -- Where no new target comes for 2 ^ 31 cycles after the one that took up the last target, the count of
  -- these cycles overflows, which is undefined behaviour of the code.
  pub cycles-overflow :
      (p : Pose) (pose : Pose) (offset : Bool) (later : List (Pose × Bool))
      (c : PandaControllerBase Pose Parameters)
      → c.move_timeout < 2 ^ 31 - 1
      → 2 ^ 31 ≤ length later
      → cycles ((pose, offset) ∷ later) (set_desired_pose_buffered p c) ≡ none
  unfolding cycles
  cycles-overflow p pose offset later c l m =
      then_none p 0 offset (cycles later)
        (compute_base_tau pose offset (set_desired_pose_buffered p c))
        (λ k f. cycles_full p 0 offset later k (omega arith) (omega arith) f)
        (take_up p pose offset c l)

  start-IsFollowing :
      (pose : Pose) (c : PandaControllerBase Pose Parameters)
      → IsFollowing pose 3 false (start pose c)
  unfolding start set_buffer update_buffer
  start-IsFollowing pose c = ground arith

  -- A started controller holds the pose in which it was started, whatever target was pending before: in
  -- fewer than 2 ^ 31 - 3 cycles without a new target, every cycle succeeds, the desired pose is that one,
  -- and the controller is moving only while it has an offset.
  pub start-cycles :
      (pose : Pose) (later : List (Pose × Bool)) (c : PandaControllerBase Pose Parameters)
      → 3 + length later < 2 ^ 31
      → MovesTo pose (last_offset false later) (cycles later (start pose c))
  start-cycles pose later c l =
      subst (λ b. MovesTo pose b (cycles later (start pose c))) (ground arith)
        (Follows-MovesTo pose (3 + length later) (last_offset false later)
          (cycles later (start pose c))
          (cycles-Follows pose 3 false later (start pose c) l (start-IsFollowing pose c)))
