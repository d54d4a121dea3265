-- ===== src/MultiMode/Torques/Delivered.antt =====
-- Which controller's torques an arm gets in a cycle of multi_mode_controller.cpp.
use franka_gazebo.Prelude.{
  ℕ, zero, suc, ◌<◌, ◌≤◌, ◌≡◌, refl, sym, ap, ◌∙◌, arith, Option, none, some, List, [], ◌∷◌, ◌++◌,
  ◌==◌, if◌then◌else◌, length, get_elem?,
}
use franka_gazebo.MultiMode.ControlSet.{Controller, ModeArm, MultiModeController}
use franka_gazebo.MultiMode.ControlSet.Usage.{count, count-append}
use franka_gazebo.MultiMode.ControlSet.Exclusive.{written}
use franka_gazebo.MultiMode.Torques.{write_tau, compute_tau, compute_all, update}

le-count : (is : List ℕ) (j n : ℕ) → get_elem? is n ≡ some j → 1 ≤ count j is
le-count [] j n e = absurd (cc)
le-count (i ∷ is) j zero e = ground arith
le-count (i ∷ is) j (suc n) e = omega (arith, le-count is j n e)

le-count-written :
    (front : List Controller) (x : Controller) (back : List Controller) (j n : ℕ)
    → get_elem? x.tau n ≡ some j
    → 1 ≤ count j (written (front ++ x ∷ back))
le-count-written [] x back j n e =
    omega (arith, count-append j x.tau (written back), le-count x.tau j n e)
le-count-written (y ∷ front) x back j n e =
    omega (
      arith,
      count-append j y.tau (written (front ++ x ∷ back)),
      le-count-written front x back j n e,
    )

module _ {D : Type 0} where
  -- The torques of the arm with an index.
  abbrev pub tau_of : List (ModeArm D) → ℕ → Option (List D)
  tau_of [] i = none
  tau_of (a ∷ arms) zero = some a.tau
  tau_of (a ∷ arms) (suc i) = tau_of arms i

  length-write_tau :
      (arms : List (ModeArm D)) (i : ℕ) (t : List D) → length (write_tau arms i t) ≡ length arms
  length-write_tau [] i t = refl
  length-write_tau (a ∷ arms) zero t = refl
  length-write_tau (a ∷ arms) (suc i) t = ap suc (length-write_tau arms i t)

  tau_of-write_tau :
      (arms : List (ModeArm D)) (i j : ℕ) (t : List D)
      → j < length arms
      → tau_of (write_tau arms i t) j ≡ (if j == i then some t else tau_of arms j)
  tau_of-write_tau [] i j t h = absurd (omega arith)
  tau_of-write_tau (a ∷ arms) zero zero t h = ground arith
  tau_of-write_tau (a ∷ arms) zero (suc j) t h = ground arith
  tau_of-write_tau (a ∷ arms) (suc i) zero t h = ground arith
  tau_of-write_tau (a ∷ arms) (suc i) (suc j) t h = ground (arith, tau_of-write_tau arms i j t)

  pub length-compute_tau :
      (is : List ℕ) (t : ℕ → List D) (arms : List (ModeArm D))
      → length (compute_tau is t arms) ≡ length arms
  unfolding compute_tau
  length-compute_tau [] t arms = refl
  length-compute_tau (i ∷ is) t arms =
      length-compute_tau is (λ n. t (suc n)) (write_tau arms i (t 0))
      ∙ length-write_tau arms i (t 0)

  -- An arm that a controller has no pointer to keeps its torques.
  compute_tau_other :
      (is : List ℕ) (t : ℕ → List D) (arms : List (ModeArm D)) (j : ℕ)
      → j < length arms
      → count j is ≡ 0
      → tau_of (compute_tau is t arms) j ≡ tau_of arms j
  unfolding compute_tau
  compute_tau_other [] t arms j h c = refl
  compute_tau_other (i ∷ is) t arms j h c = ground (
    arith,
    compute_tau_other is (λ n. t (suc n)) (write_tau arms i (t 0)) j,
    length-write_tau arms i (t 0),
    tau_of-write_tau arms i j (t 0) h,
  )

  -- An arm that stands once among the pointers, at place `n`, gets what is computed for that place.
  compute_tau_own :
      (is : List ℕ) (t : ℕ → List D) (arms : List (ModeArm D)) (j n : ℕ)
      → j < length arms
      → count j is ≡ 1
      → get_elem? is n ≡ some j
      → tau_of (compute_tau is t arms) j ≡ some (t n)
  unfolding compute_tau
  compute_tau_own [] t arms j n h c e = absurd (cc)
  compute_tau_own (i ∷ is) t arms j zero h c e = ground (
    arith,
    compute_tau_other is (λ n. t (suc n)) (write_tau arms i (t 0)) j,
    length-write_tau arms i (t 0),
    tau_of-write_tau arms i j (t 0) h,
  )
  compute_tau_own (i ∷ is) t arms j (suc n) h c e =
      let later = le-count is j n e in
      compute_tau_own is (λ n. t (suc n)) (write_tau arms i (t 0)) j n
        (omega (arith, length-write_tau arms i (t 0))) (ground (arith, later)) e

  compute_all_other :
      (torque : Controller → ℕ → List D) (xs : List Controller) (arms : List (ModeArm D)) (j : ℕ)
      → j < length arms
      → count j (written xs) ≡ 0
      → tau_of (compute_all torque xs arms) j ≡ tau_of arms j
  unfolding compute_all
  compute_all_other torque [] arms j h c = refl
  compute_all_other torque (x ∷ xs) arms j h c =
      let split = count-append j x.tau (written xs) in
      let size = length-compute_tau x.tau (torque x) arms in
      compute_all_other torque xs (compute_tau x.tau (torque x) arms) j (omega (arith, size))
        (omega (arith, split))
      ∙ compute_tau_other x.tau (torque x) arms j h (omega (arith, split))

  compute_all_own :
      (torque : Controller → ℕ → List D) (front : List Controller) (x : Controller)
      (back : List Controller) (arms : List (ModeArm D)) (j n : ℕ)
      → j < length arms
      → count j (written (front ++ x ∷ back)) ≡ 1
      → get_elem? x.tau n ≡ some j
      → tau_of (compute_all torque (front ++ x ∷ back) arms) j ≡ some (torque x n)
  unfolding compute_all
  compute_all_own torque [] x back arms j n h c e =
      let split = count-append j x.tau (written back) in
      let here = le-count x.tau j n e in
      let size = length-compute_tau x.tau (torque x) arms in
      compute_all_other torque back (compute_tau x.tau (torque x) arms) j (omega (arith, size))
        (omega (arith, split, here))
      ∙ compute_tau_own x.tau (torque x) arms j n h (omega (arith, split, here)) e
  compute_all_own torque (y ∷ front) x back arms j n h c e =
      let split = count-append j y.tau (written (front ++ x ∷ back)) in
      let there = le-count-written front x back j n e in
      let size = length-compute_tau y.tau (torque y) arms in
      compute_all_own torque front x back (compute_tau y.tau (torque y) arms) j n
        (omega (arith, size)) (omega (arith, split, there)) e

  -- The arm whose index stands at place `n` of the pointers of an active controller, and nowhere else
  -- among those of the active set, ends the cycle with what that controller computes for the place,
  -- wherever the controller stands in the set.
  pub update_own :
      (torque : Controller → ℕ → List D) (c : MultiModeController D) (front : List Controller)
      (x : Controller) (back : List Controller) (j n : ℕ)
      → c.active_control_set ≡ front ++ x ∷ back
      → j < length c.arms
      → count j (written c.active_control_set) ≡ 1
      → get_elem? x.tau n ≡ some j
      → tau_of (update torque c).0.arms j ≡ some (torque x n)
  unfolding update
  update_own torque c front x back j n s h k e = rw s (
      compute_all_own torque front x back c.arms j n h (ap (λ xs. count j (written xs)) (sym s) ∙ k)
        e)
