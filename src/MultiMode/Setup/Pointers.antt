-- ===== src/MultiMode/Setup/Pointers.antt =====
-- What the pointers of a controller of multi_mode_controller.cpp point to.
use franka_gazebo.Prelude.{
  ℕ, zero, suc, ◌<◌, ◌≡◌, ◌⊎◌, refl, sym, ap, ◌∙◌, arith, Option, none, some, List, [], ◌∷◌, ◌++◌,
  Name, Map, find, same, same-eq, length, All, Option-cases, Bool-cases, inl, inr, subst,
}
use franka_gazebo.MultiMode.Resources.{resource_to_vector}
use franka_gazebo.MultiMode.ControlSet.{Controller, ModeArm, index_of}
use franka_gazebo.MultiMode.ControlSet.Usage.{indices}
use franka_gazebo.MultiMode.ControlSet.Exclusive.{IsWiredTo}
use franka_gazebo.MultiMode.Setup.{insert_new}
use franka_gazebo.MultiMode.Setup.Entries.{find-insert_new}
use franka_gazebo.MultiMode.Torques.{write_tau, compute_tau, compute_all}

module _ {D : Type 0} where
  -- The name of the arm with an index.
  abbrev pub name_at : List (ModeArm D) → ℕ → Option Name
  name_at [] i = none
  name_at (a ∷ arms) zero = some a.arm_id
  name_at (a ∷ arms) (suc i) = name_at arms i

  -- The index that is kept for a name is that of an arm with this name.
  abbrev pub IsNamed : Map ℕ → List (ModeArm D) → Type 0
  IsNamed m arms = (r : Name) (i : ℕ) → find r m ≡ some i → name_at arms i ≡ some r

  -- The pointer for a name points to the arm with this name; where no arm is known under it, to the first.
  abbrev pub Points : Map ℕ → List (ModeArm D) → Name → ℕ → Type 0
  Points m arms r i = (name_at arms i ≡ some r) ⊎ ((find r m ≡ none) × (i ≡ 0))

  abbrev pub AllPoint : Map ℕ → List (ModeArm D) → List Name → List ℕ → Type 0
  AllPoint m arms [] [] = Unit
  AllPoint m arms (r ∷ rs) (i ∷ is) = Points m arms r i × AllPoint m arms rs is
  AllPoint m arms [] (i ∷ is) = ⊥
  AllPoint m arms (r ∷ rs) [] = ⊥

  -- A controller has one pointer for each name of its resource, in this order.
  abbrev pub HasPointers : Map ℕ → List (ModeArm D) → Controller → Type 0
  HasPointers m arms x = AllPoint m arms (resource_to_vector x.info.resource) x.tau

  index_of-Points :
      (m : Map ℕ) (arms : List (ModeArm D)) (r : Name)
      → IsNamed m arms
      → Points m arms r (index_of m r)
  index_of-Points m arms r h = by_found (find r m) refl
    where
      by_found : (o : Option ℕ) → find r m ≡ o → Points m arms r (elim o [ none ↦ 0 | some i ↦ i ])
      by_found none e = inr (e, refl)
      by_found (some i) e = inl (h r i e)

  indices-AllPoint :
      (m : Map ℕ) (arms : List (ModeArm D)) (rs : List Name)
      → IsNamed m arms
      → AllPoint m arms rs (indices m rs)
  indices-AllPoint m arms [] h = tt
  indices-AllPoint m arms (r ∷ rs) h = (index_of-Points m arms r h, indices-AllPoint m arms rs h)

  pub IsWiredTo-HasPointers :
      (m : Map ℕ) (arms : List (ModeArm D)) (xs : List Controller)
      → IsNamed m arms
      → All (IsWiredTo m) xs
      → All (HasPointers m arms) xs
  IsWiredTo-HasPointers m arms [] h w = tt
  IsWiredTo-HasPointers m arms (x ∷ xs) h w = (
    subst (AllPoint m arms (resource_to_vector x.info.resource)) (sym w.0)
        (indices-AllPoint m arms (resource_to_vector x.info.resource) h),
    IsWiredTo-HasPointers m arms xs h w.1,
  )

  name_at-append :
      (arms more : List (ModeArm D)) (i : ℕ)
      → i < length arms
      → name_at (arms ++ more) i ≡ name_at arms i
  name_at-append [] more i h = absurd (omega arith)
  name_at-append (a ∷ arms) more zero h = refl
  name_at-append (a ∷ arms) more (suc i) h = name_at-append arms more i (omega arith)

  name_at_last :
      (arms : List (ModeArm D)) (a : ModeArm D) (n : ℕ)
      → length arms ≡ n
      → name_at (arms ++ a ∷ []) n ≡ some a.arm_id
  name_at_last [] a zero h = refl
  name_at_last [] a (suc n) h = absurd (omega arith)
  name_at_last (b ∷ arms) a zero h = absurd (omega arith)
  name_at_last (b ∷ arms) a (suc n) h = name_at_last arms a n (omega arith)

  -- An arm that is put in under its index keeps the names right.
  pub insert_new-IsNamed :
      (m : Map ℕ) (arms : List (ModeArm D)) (a : ModeArm D) (n : ℕ)
      → IsNamed m arms
      → length arms ≡ n
      → ((r : Name) (i : ℕ) → find r m ≡ some i → i < n)
      → IsNamed (insert_new a.arm_id n m) (arms ++ a ∷ [])
  insert_new-IsNamed m arms a n h size in_range r i e =
      let there = sym (find-insert_new a.arm_id r n m) ∙ e in
      elim (Option-cases (find r m)) [
        | inr (j, p) ↦
            let kept : j ≡ i = ground (arith, p, there) in
            subst (λ k. name_at (arms ++ a ∷ []) k ≡ some r) kept
              (name_at-append arms (a ∷ []) j (omega (arith, size, in_range r j p)) ∙ h r j p)
        | inl p ↦ elim (Bool-cases (same a.arm_id r)) [
          | inr q ↦ absurd (ground (arith, p, q, there))
          | inl q ↦
              let new : n ≡ i = ground (arith, p, q, there) in
              subst (λ k. name_at (arms ++ a ∷ []) k ≡ some r) new
                (name_at_last arms a n size ∙ ap some (same-eq a.arm_id r q))
        ]
      ]

  name_at-write_tau :
      (arms : List (ModeArm D)) (i : ℕ) (t : List D) (j : ℕ)
      → name_at (write_tau arms i t) j ≡ name_at arms j
  name_at-write_tau [] i t j = refl
  name_at-write_tau (a ∷ arms) zero t zero = refl
  name_at-write_tau (a ∷ arms) zero t (suc j) = refl
  name_at-write_tau (a ∷ arms) (suc i) t zero = refl
  name_at-write_tau (a ∷ arms) (suc i) t (suc j) = name_at-write_tau arms i t j

  name_at-compute_tau :
      (is : List ℕ) (t : ℕ → List D) (arms : List (ModeArm D)) (j : ℕ)
      → name_at (compute_tau is t arms) j ≡ name_at arms j
  unfolding compute_tau
  name_at-compute_tau [] t arms j = refl
  name_at-compute_tau (i ∷ is) t arms j =
      name_at-compute_tau is (λ n. t (suc n)) (write_tau arms i (t 0)) j
      ∙ name_at-write_tau arms i (t 0) j

  -- The torques of a cycle leave the names alone.
  pub name_at-compute_all :
      (torque : Controller → ℕ → List D) (xs : List Controller) (arms : List (ModeArm D)) (j : ℕ)
      → name_at (compute_all torque xs arms) j ≡ name_at arms j
  unfolding compute_all
  name_at-compute_all torque [] arms j = refl
  name_at-compute_all torque (x ∷ xs) arms j =
      name_at-compute_all torque xs (compute_tau x.tau (torque x) arms) j
      ∙ name_at-compute_tau x.tau (torque x) arms j
