-- ===== src/Motion/Sections.antt =====
-- The sections of a trajectory in motion_generator_base.h.
use franka_gazebo.Prelude.{
  ℕ, zero, suc, ◌+◌, ◌≤◌, ◌<◌, ◌≡◌, refl, arith, Bool, Option, none, some, List, [], ◌∷◌, length,
  get_elem?,
}
use franka_gazebo.Motion.{
  Real, Generator, Stepped, back, size_minus_one, scaled, advanced, turned, step,
}

module _ {A : Type 0} where
  some-back : (xs : List A) → 0 < length xs → (x : A) × (back xs ≡ some x)
  some-back [] h = absurd (omega arith)
  some-back (x ∷ []) h = (x, refl)
  some-back (x ∷ y ∷ xs) h = some-back (y ∷ xs) (omega arith)

  pub some_elem : (xs : List A) (i : ℕ) → i < length xs → (x : A) × (get_elem? xs i ≡ some x)
  some_elem [] i h = absurd (omega arith)
  some_elem (x ∷ xs) zero h = (x, refl)
  some_elem (x ∷ xs) (suc i) h = some_elem xs i (omega arith)

  pub size_lem : (xs : List A) → 0 < length xs → size_minus_one xs + 1 ≡ length xs
  size_lem [] h = absurd (omega arith)
  size_lem (x ∷ xs) h = omega arith

module _ {D Via Config : Type 0} where
  -- The current section is one of the trajectory, of which each has its end time.
  pub record IsOnTrack (g : Generator D Via Config) : Type 0 where
    pub section : g.current_section < length g.end_times
    pub timed : length g.end_times ≡ length g.via_poses

  -- A step changes neither the poses nor the end times, and the section by one at most.
  pub record Follows (g h : Generator D Via Config) : Type 0 where
    pub on_track : IsOnTrack h
    pub same_times : h.end_times ≡ g.end_times
    pub same_poses : h.via_poses ≡ g.via_poses
    pub up : g.current_section ≤ h.current_section
    pub by_one : h.current_section ≤ g.current_section + 1

  abbrev pub Steps :
      {Goal : Type 0} (g : Generator D Via Config)
      → Option (Generator D Via Config × Stepped D Goal)
      → Type 0
  Steps g none = ⊥
  Steps g (some (h, stepped)) = Follows g h

  module _ {Goal : Type 0} (r : Real D) (step_impl : ℕ → D → Goal) where
    pub step-Steps :
        (has_offset : Bool) (g : Generator D Via Config)
        → IsOnTrack g
        → Steps g (step r step_impl has_offset g)
    unfolding step advanced scaled turned
    step-Steps has_offset g v =
        let (finish, e) = some_elem g.end_times g.current_section v.section in
        let (last, l) = some-back g.end_times (omega arith) in
        ground (arith, e, l, size_lem g.via_poses)
