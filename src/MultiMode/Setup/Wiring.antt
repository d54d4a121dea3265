-- ===== src/MultiMode/Setup/Wiring.antt =====
-- What the loops of `on_configure` and `initControllers` of multi_mode_controller.cpp set up.
use franka_gazebo.Prelude.{
  ℕ, zero, suc, ◌+◌, ◌<◌, ◌≡◌, ◌≢◌, ◌⊎◌, refl, sym, ap, ◌∙◌, arith, Bool, true, ◌||◌, none, some,
  List, [], ◌∷◌, ◌++◌, Name, find, any, same, same-eq, same_refl, length, length-append,
  Option-cases, Bool-cases, inl, inr,
}
use franka_gazebo.MultiMode.Resources.{resource_to_vector}
use franka_gazebo.MultiMode.ControlSet.{MultiModeController}
use franka_gazebo.MultiMode.ControlSet.Usage.{indices}
use franka_gazebo.MultiMode.ControlSet.Exclusive.{IsWired}
use franka_gazebo.MultiMode.ControlSet.Service.{IsStocked}
use franka_gazebo.MultiMode.Setup.{
  Setting, add_arm, configure_arms, add_resource, add_resources, created_for,
}
use franka_gazebo.MultiMode.Setup.Pointers.{IsNamed, insert_new-IsNamed}
use franka_gazebo.MultiMode.Setup.Entries.{find-assign, find-insert_new}

any-append : (p : Name → Bool) (xs ys : List Name) → any p (xs ++ ys) ≡ any p xs || any p ys
any-append p [] ys = refl
any-append p (x ∷ xs) ys = ground (arith, any-append p xs ys)

module _ {D : Type 0} where
  -- The state on the way through `on_configure`.
  pub record IsPrepared (c : MultiModeController D) : Type 0 where
    pub wired : IsWired c
    pub stocked : IsStocked c
    pub named : IsNamed c.robot_index c.arms
    pub silent : c.events ≡ []

  -- The state in the loop over the arms: as many arms as rounds, each known by an index in range.
  pub record IsArmed (n : ℕ) (c : MultiModeController D) : Type 0 where
    pub size : length c.arms ≡ n
    pub in_range : (r : Name) (i : ℕ) → find r c.robot_index ≡ some i → i < n
    pub named : IsNamed c.robot_index c.arms
    pub no_resources : c.resources ≡ []
    pub no_controllers : c.control_map ≡ []
    pub none_active : c.active_control_set ≡ []
    pub silent : c.events ≡ []

  add_arm-IsArmed :
      (tau : List D) (n : ℕ) (id : Name) (c : MultiModeController D)
      → IsArmed n c
      → IsArmed (n + 1) (add_arm tau n id c)
  add_arm-IsArmed tau n id c h = record {
    size = omega (arith, h.size, length-append c.arms (record { arm_id = id; tau = tau } ∷ []));
    in_range = λ r i e. ground (arith, find-insert_new id r n c.robot_index, h.in_range r i, e);
    named =
        insert_new-IsNamed c.robot_index c.arms (record { arm_id = id; tau = tau }) n h.named h.size
          h.in_range;
    no_resources = h.no_resources;
    no_controllers = h.no_controllers;
    none_active = h.none_active;
    silent = h.silent;
  }

  pub configure_arms-IsArmed :
      (s : Setting) (tau : List D) (n i : ℕ) (c c' : MultiModeController D)
      → IsArmed i c
      → configure_arms s tau n i c ≡ (c', true)
      → IsArmed (n + i) c'
  unfolding configure_arms
  configure_arms-IsArmed s tau zero i c c' h e =
      let zero_left : zero + i ≡ i = omega arith in rw (zero_left, ← ap (λ p. p.0) e) h
  configure_arms-IsArmed s tau (suc n) i c c' h e = elim (Option-cases (s.arm_id (i + 1))) [
    | inl p ↦ absurd (ground (arith, p))
    | inr (id, p) ↦ elim (Bool-cases (s.robot_data_init id)) [
      | inr q ↦ absurd (ground (arith, p, q))
      | inl q ↦
          let done : configure_arms s tau n (i + 1) (add_arm tau i id c) ≡ (c', true) =
            ground (arith, p, q) in
          let v =
            configure_arms-IsArmed s tau n (i + 1) (add_arm tau i id c) c'
              (add_arm-IsArmed tau i id c h) done in
          let shift : n + (i + 1) ≡ suc n + i = omega arith in rw shift at v
    ]
  ]

  pub IsArmed-IsPrepared : (n : ℕ) (c : MultiModeController D) → IsArmed (suc n) c → IsPrepared c
  IsArmed-IsPrepared n c h = record {
    wired = record {
      in_range = λ r. elim (Option-cases (find r c.robot_index)) [
        | inl e ↦ ground (arith, e, h.size)
        | inr (i, e) ↦ ground (arith, e, h.size, h.in_range r i e)
      ];
      resources = λ r tau e. absurd (ground (arith, h.no_resources, e));
      active = rw h.none_active tt;
    };
    stocked = λ name r created e a. absurd (ground (arith, h.no_controllers, e));
    named = h.named;
    silent = h.silent;
  }

  add_resource-resources :
      (controller resource : Name) (c : MultiModeController D) (r : Name) (tau : List ℕ)
      → IsWired c
      → find r (add_resource controller resource c).resources ≡ some tau
      → tau ≡ indices c.robot_index (resource_to_vector r)
  add_resource-resources controller resource c r tau w e =
      let new = indices c.robot_index (resource_to_vector resource) in
      let there = sym (find-insert_new resource r new c.resources) ∙ e in
      elim (Option-cases (find r c.resources)) [
        | inr (t, p) ↦ w.resources r tau (ground (arith, p, there))
        | inl p ↦ elim (Bool-cases (same resource r)) [
          | inr q ↦ absurd (ground (arith, p, q, there))
          | inl q ↦ ground (arith, p, q, there, same-eq resource r q)
        ]
      ]

  -- A resource that is there stays there, and the new one is there.
  add_resource-there :
      (controller resource : Name) (c : MultiModeController D) (r : Name)
      → (find r c.resources ≢ none) ⊎ (same r resource ≡ true)
      → find r (add_resource controller resource c).resources ≢ none
  add_resource-there controller resource c r h e =
      let new = indices c.robot_index (resource_to_vector resource) in
      let gone = sym (find-insert_new resource r new c.resources) ∙ e in
      elim h [
        | inl there ↦ ground (arith, gone, there)
        | inr q ↦ ground (arith, gone, same-eq r resource q, same_refl resource)
      ]

  add_resource-IsStocked :
      (controller resource : Name) (c : MultiModeController D)
      → IsStocked c
      → IsStocked (add_resource controller resource c)
  add_resource-IsStocked controller resource c h name r created e a =
      let old = created_for c controller in
      let there = sym (find-assign controller name (old ++ resource ∷ []) c.control_map) ∙ e in
      elim (Bool-cases (same controller name)) [
        | inr q ↦
            add_resource-there controller resource c r
              (inl (h name r created (ground (arith, q, there)) a))
        | inl q ↦
            let all_of : old ++ resource ∷ [] ≡ created = ground (arith, q, there) in
            let split = any-append (same r) old (resource ∷ []) in
            add_resource-there controller resource c r (elim (Bool-cases (same r resource)) [
              | inl t ↦ inr t
              | inr t ↦ inl (elim (Option-cases (find controller c.control_map)) [
                | inl p ↦ absurd (ground (arith, p, t, all_of, split, a))
                | inr (rs, p) ↦ h controller r rs p (ground (arith, p, t, all_of, split, a))
              ])
            ])
      ]

  add_resource-IsPrepared :
      (controller resource : Name) (c : MultiModeController D)
      → IsPrepared c
      → IsPrepared (add_resource controller resource c)
  add_resource-IsPrepared controller resource c h = record {
    wired = record {
      in_range = h.wired.in_range;
      resources = λ r tau. add_resource-resources controller resource c r tau h.wired;
      active = h.wired.active;
    };
    stocked = add_resource-IsStocked controller resource c h.stocked;
    named = h.named;
    silent = h.silent;
  }

  pub add_resources-IsPrepared :
      (controller : Name) (rs : List Name) (c : MultiModeController D)
      → IsPrepared c
      → IsPrepared (add_resources controller rs c)
  unfolding add_resources
  add_resources-IsPrepared controller [] c h = h
  add_resources-IsPrepared controller (r ∷ rs) c h =
      add_resources-IsPrepared controller rs (add_resource controller r c)
        (add_resource-IsPrepared controller r c h)
