-- ===== src/MultiMode/ControlSet/Exclusive.antt =====
-- The control sets that `setupControlSet` of multi_mode_controller.cpp accepts.
use mathlib.Core.List.{append_assoc, Mem, mem-cons_self, mem-cons_of_mem}
use franka_gazebo.Prelude.{
  ℕ, zero, ◌<◌, ◌≡◌, refl, sym, ◌∙◌, arith, true, some, List, [], ◌∷◌, ◌++◌, Name, Map, find, map,
  length, get_or, replicate, All, All-append, All_map, All_zip, length-replicate, any, Option-cases,
  Bool-cases, inl, inr, same, append-nil,
}
use franka_gazebo.MultiMode.Resources.{resource_to_vector}
use franka_gazebo.MultiMode.ControlSet.{
  ControllerInfo, Controller, ModeArm, MultiModeController, value, Outcome-cases, value-injective,
  index_of, controller_of, get_control_set_from_info, shares, add_old, count_usages, is_used_once,
  setup_control_set,
}
use franka_gazebo.MultiMode.ControlSet.Usage.{
  count, get_or-replicate, indices, uses, count_usages_lem,
}

-- The pointers of a controller are those that `robot_index_` gives for the names of its resource: index 0
-- where it does not have a name.
abbrev pub IsWiredTo : Map ℕ → Controller → Type 0
IsWiredTo m x = x.tau ≡ indices m (resource_to_vector x.info.resource)

module _ {D : Type 0} where
  pub record IsWired (c : MultiModeController D) : Type 0 where
    pub in_range : (r : Name) → index_of c.robot_index r < length c.arms
    pub resources :
        (r : Name) (tau : List ℕ)
        → find r c.resources ≡ some tau
        → tau ≡ indices c.robot_index (resource_to_vector r)
    pub active : All (IsWiredTo c.robot_index) c.active_control_set

  is_used_once-All :
      (m : Map ℕ) (usage : List ℕ) (arms : List (ModeArm D))
      → is_used_once m usage arms ≡ true
      → All (λ a. get_or usage (index_of m a.arm_id) 0 ≡ 1) arms
  unfolding is_used_once
  is_used_once-All m usage [] h = tt
  is_used_once-All m usage (a ∷ arms) h = ground (arith, is_used_once-All m usage arms)

  controller_of-IsWiredTo :
      (c : MultiModeController D) (i : ControllerInfo) (x : Controller)
      → IsWired c
      → controller_of c i ≡ value x
      → (x.info ≡ i) × IsWiredTo c.robot_index x
  unfolding controller_of
  controller_of-IsWiredTo c i x w e = elim (Option-cases (find i.resource c.resources)) [
    | inl p ↦ absurd (ground (arith, p))
    | inr (tau, p) ↦ ground (arith, p, w.resources i.resource tau p)
  ]

  pub get_control_set_from_info_lem :
      (c : MultiModeController D) (is : List ControllerInfo) (xs : List Controller)
      → IsWired c
      → get_control_set_from_info c is ≡ value xs
      → (map (λ (x : Controller). x.info) xs ≡ is) × All (IsWiredTo c.robot_index) xs
  unfolding get_control_set_from_info
  get_control_set_from_info_lem c [] xs w e = rw (← value-injective [] xs e) (refl, tt)
  get_control_set_from_info_lem c (i ∷ is) xs w e = elim (Outcome-cases (controller_of c i)) [
    | inl p ↦ absurd (ground (arith, p))
    | inr (inl p) ↦ absurd (ground (arith, p))
    | inr (inr (x, p)) ↦ elim (Outcome-cases (get_control_set_from_info c is)) [
      | inl q ↦ absurd (ground (arith, p, q))
      | inr (inl q) ↦ absurd (ground (arith, p, q))
      | inr (inr (ys, q)) ↦
          let (named, wired) = controller_of-IsWiredTo c i x w p in
          let (names, all_wired) = get_control_set_from_info_lem c is ys w q in
          let same : x ∷ ys ≡ xs = ground (arith, p, q) in
          rw (← same) (ground (arith, named, names), (wired, all_wired))
    ]
  ]

-- The set begins with what was there, and every added controller is one of the old ones.
add_old_lem :
    (P : Controller → Type 0) (olds out : List Controller)
    → All P olds
    → (kept : List Controller) × (add_old olds out ≡ out ++ kept) × All P kept
unfolding add_old
add_old_lem P [] out h = ([], sym (append-nil out), tt)
add_old_lem P (old ∷ olds) out h = elim (Bool-cases (any (λ nc. shares old.tau nc.tau) out)) [
  | inl e ↦ rw e (add_old_lem P olds out h.1)
  | inr e ↦
      let (kept, eq, hk) = add_old_lem P olds (out ++ old ∷ []) h.1 in
      (old ∷ kept, rw (e, eq) (append_assoc out (old ∷ []) kept), (h.0, hk))
]

-- The torque pointers of a control set.
abbrev pub written : List Controller → List ℕ
written [] = []
written (x ∷ xs) = x.tau ++ written xs

written-eq-uses : (m : Map ℕ) (xs : List Controller) → All (IsWiredTo m) xs → written xs ≡ uses m xs
written-eq-uses m [] h = refl
written-eq-uses m (x ∷ xs) h = rw (h.0, written-eq-uses m xs h.1)

All-Mem :
    (xs ys : List Controller) → ((x : Controller) → Mem x xs → Mem x ys) → All (λ x. Mem x ys) xs
All-Mem [] ys f = tt
All-Mem (x ∷ xs) ys f = (f x mem-cons_self, All-Mem xs ys (λ y h. f y (mem-cons_of_mem x h)))

module _ {D : Type 0} where
  -- What `setupControlSet` promises of the set that it accepts.
  pub record IsExclusive (c : MultiModeController D) (is : List ControllerInfo)
      (out : List Controller) : Type 0 where
    pub once : All (λ a. count (index_of c.robot_index a.arm_id) (written out) ≡ 1) c.arms
    pub requested :
        (new kept : List Controller) × (out ≡ new ++ kept)
        × (map (λ (x : Controller). x.info) new ≡ is)
        × All (λ x. Mem x c.active_control_set) kept
    pub wired : All (IsWiredTo c.robot_index) out

  used_once :
      (c : MultiModeController D) (out : List Controller)
      → IsWired c
      → All (IsWiredTo c.robot_index) out
      → is_used_once c.robot_index
          (count_usages c.robot_index out (replicate (length c.arms) 0))
          c.arms
        ≡ true
      → All (λ a. count (index_of c.robot_index a.arm_id) (written out) ≡ 1) c.arms
  used_once c out w wired e =
      All_map
        (λ a (h : get_or usage (index_of c.robot_index a.arm_id) 0 ≡ 1).
          rw (written-eq-uses c.robot_index out wired) (
            omega (
              arith,
              h,
              count_usages_lem c.robot_index out (replicate (length c.arms) 0)
                  (index_of c.robot_index a.arm_id)
                  (λ r. rw (length-replicate (length c.arms) zero) (w.in_range r)),
              get_or-replicate (length c.arms) (index_of c.robot_index a.arm_id),
            )))
        c.arms (is_used_once-All c.robot_index usage c.arms e)
    where
      usage : List ℕ
      usage = count_usages c.robot_index out (replicate (length c.arms) 0)

  -- What `setupControlSet` has found where it accepts.
  accepted :
      (c : MultiModeController D) (is : List ControllerInfo) (out : List Controller)
      → setup_control_set c is ≡ value out
      → (new : List Controller) × (get_control_set_from_info c is ≡ value new)
        × (add_old c.active_control_set new ≡ out)
        × (is_used_once c.robot_index
              (count_usages c.robot_index out (replicate (length c.arms) 0))
              c.arms
            ≡ true)
  unfolding setup_control_set
  accepted c is out e = elim (Outcome-cases (get_control_set_from_info c is)) [
    | inl p ↦ absurd (ground (arith, p))
    | inr (inl p) ↦ absurd (ground (arith, p))
    | inr (inr (new, p)) ↦
        let same : add_old c.active_control_set new ≡ out = ground (arith, p) in
        (new, p, same, rw (← same) (ground (arith, p)))
  ]

  -- A set that `setupControlSet` accepts holds a controller for each entry of the request, in order, and
  -- then controllers that were active before; among the torque pointers of them all each arm occurs
  -- exactly once.
  pub setup_control_set-IsExclusive :
      (c : MultiModeController D) (is : List ControllerInfo) (out : List Controller)
      → IsWired c
      → setup_control_set c is ≡ value out
      → IsExclusive c is out
  setup_control_set-IsExclusive c is out w e =
      let (new, p, same, used) = accepted c is out e in
      let (named, wired) = get_control_set_from_info_lem c is new w p in
      let active = c.active_control_set in
      let (kept, eq, old) =
        add_old_lem (λ x. Mem x active × IsWiredTo c.robot_index x) active new
          (All_zip (λ x. Mem x active) (IsWiredTo c.robot_index) active
            (All-Mem active active (λ x h. h)) w.active) in
      let split : out ≡ new ++ kept = sym same ∙ eq in
      let all_wired : All (IsWiredTo c.robot_index) out =
        rw split
          (All-append (IsWiredTo c.robot_index) new kept wired (All_map (λ x h. h.1) kept old)) in
      record {
        once = used_once c out w all_wired used;
        requested = (new, kept, split, named, All_map (λ x h. h.0) kept old);
        wired = all_wired;
      }
