-- ===== src/SimGripper/Server/Cancel.antt =====
-- What a cancellation does in gripper_sim_action_server.cpp.
use franka_gazebo.Prelude.{
  ℕ, zero, suc, ◌+◌, ◌≡◌, arith, true, false, Option, none, some, List, [], ◌∷◌, ◌++◌, get_elem?,
  if◌then◌else◌,
}
use franka_gazebo.SimGripper.{Scale, clamped}
use franka_gazebo.SimGripper.Server.{
  Drive, SimServer, Event, goal_request, cancel_request, stop_write, check, write, check_round,
  write_round, check_in, write_in, happen, happen_all,
}

-- Not a new goal.
abbrev pub IsPassive : {D : Type 0} → Event D → Type 0
IsPassive goal_request = ⊥
IsPassive _ = Unit

-- What is written into the input, by a round of a loop or by a stop.
pub data Write (D : Type 0) : Type 0 where
  by_motion by_stop : D → Write D

module _ {D : Type 0} where
  -- The rounds that have passed the test of the flag and not written yet.
  abbrev pub pending_one : Drive D → ℕ
  pending_one d = elim d.left [ zero ↦ 0 | suc left ↦ if d.passed then 1 else 0 ]

  abbrev pub pending : List (Drive D) → ℕ
  pending [] = 0
  pending (d ∷ drives) = pending_one d + pending drives

  -- The writes of the loops.
  abbrev pub motions : List (Write D) → ℕ
  motions [] = 0
  motions (by_motion x ∷ writes) = suc (motions writes)
  motions (by_stop x ∷ writes) = motions writes

  abbrev pub last_value : D → List (Write D) → D
  last_value x [] = x
  last_value x (by_motion y ∷ writes) = last_value y writes
  last_value x (by_stop y ∷ writes) = last_value y writes

  abbrev pub of_motion : Option D → List (Write D)
  of_motion none = []
  of_motion (some x) = by_motion x ∷ []

module _ {D : Type 0} (s : Scale D) where
  -- What a step writes.
  abbrev pub written : Event D → SimServer D → List (Write D)
  written stop_write v = by_stop (s.input_of v.current.width) ∷ []
  written (write n) v = of_motion (write_in s n v.drives).0
  written _ v = []

  abbrev pub writes_of : (max_width : D) → List (Event D) → SimServer D → List (Write D)
  writes_of max_width [] v = []
  writes_of max_width (e ∷ events) v =
      written e v ++ writes_of max_width events (happen s max_width e v)

  -- The flag stays set, the loops have written as many inputs as rounds were pending and are not any more,
  -- and the input is the last that was written.
  pub record IsHalted (v u : SimServer D) (writes : List (Write D)) : Type 0 where
    pub flag : u.is_canceled ≡ true
    pub spent : motions writes + pending u.drives ≡ pending v.drives
    pub held : u.input ≡ last_value v.input writes

  going :
      (n : ℕ) (drives : List (Drive D)) (d : Drive D) (k : ℕ)
      → get_elem? drives n ≡ some d
      → d.left ≡ suc k
      → (write_in s n (check_in s n false drives)).0 ≡ some (clamped s (s.plus d.cur_width d.delta))
  unfolding check_round write_round
  going n [] d k e l = absurd (cc)
  going zero (x ∷ drives) d k e l = ground arith
  going (suc n) (x ∷ drives) d k e l = going n drives d k e l

  -- A goal that is requested before the loop of a canceled motion has seen the flag lets that motion go on:
  -- its next round writes the next input of the motion, as if it had not been canceled.
  pub goal_request-going :
      (max_width : D) (v : SimServer D) (n : ℕ) (d : Drive D) (k : ℕ)
      → get_elem? v.drives n ≡ some d
      → d.left ≡ suc k
      → (happen_all s max_width (cancel_request ∷ goal_request ∷ check n ∷ write n ∷ []) v).input
        ≡ clamped s (s.plus d.cur_width d.delta)
  unfolding happen
  goal_request-going max_width v n d k e l = ground (arith, going n v.drives d k e l)
