-- ===== src/StateMessage/Copies.antt =====
-- The loops over the arrays of a message leave copies.
use franka_gazebo.Prelude.{
  ℕ, zero, suc, ◌+◌, ◌≡◌, refl, ap, subst, ◌∙◌, arith, List, [], ◌∷◌, All, length, set, get_elem?,
  Option-cases, inl, inr,
}
use franka_gazebo.StateMessage.{
  copy_cartesian, copy_joints, copy_elbows, copy_transforms, copy_inertias, copy_centers, Cartesian,
  Joints, Elbows, Transforms, Inertias, Centers, copy_from, copied,
}

module _ {D : Type 0} where
  copy_from-cons :
      (left i : ℕ) (x y : D) (source target : List D)
      → copy_from left (suc i) (x ∷ source) (y ∷ target) ≡ y ∷ copy_from left i source target
  copy_from-cons zero i x y source target = refl
  copy_from-cons (suc left) i x y source target = elim (Option-cases (get_elem? source i)) [
    | inl e ↦ rw (e, copy_from) refl
    | inr (z, e) ↦
        rw (e, copy_from)
          (subst
            (λ k.
              copy_from left k (x ∷ source) (y ∷ set target i z)
              ≡ y ∷ copy_from left (i + 1) source (set target i z))
            (omega arith) (copy_from-cons left (i + 1) x y source (set target i z)))
  ]

  -- A loop over all indices leaves a copy of the source, whatever the target held.
  copied-source :
      (n : ℕ) (source target : List D)
      → length source ≡ n
      → length target ≡ n
      → copied n source target ≡ source
  copied-source zero [] [] h k = refl
  copied-source zero [] (y ∷ target) h k = absurd (omega (arith, k))
  copied-source zero (x ∷ source) target h k = absurd (omega (arith, h))
  copied-source (suc n) [] target h k = absurd (omega (arith, h))
  copied-source (suc n) (x ∷ source) [] h k = absurd (omega (arith, k))
  copied-source (suc n) (x ∷ source) (y ∷ target) h k =
      copy_from-cons n 0 x x source target
      ∙ ap (λ xs. x ∷ xs) (copied-source n source target (omega (arith, h)) (omega (arith, k)))

  -- The arrays have their sizes.
  abbrev pub SizedCartesian : Cartesian D → Type 0
  SizedCartesian g =
      All (λ xs. length xs ≡ 6)
        (g.cartesian_collision ∷ g.cartesian_contact ∷ g.k_f_ext_hat_k ∷ g.o_f_ext_hat_k
          ∷ g.o_dp_ee_d ∷ g.o_dp_ee_c ∷ g.o_ddp_ee_c ∷ [])

  pub copy_cartesian_all :
      (s t : Cartesian D) → SizedCartesian s → SizedCartesian t → copy_cartesian s t ≡ s
  copy_cartesian_all s t h k = λ i. record {
    cartesian_collision = copied-source 6 s.cartesian_collision t.cartesian_collision h.0 k.0 i;
    cartesian_contact = copied-source 6 s.cartesian_contact t.cartesian_contact h.1.0 k.1.0 i;
    k_f_ext_hat_k = copied-source 6 s.k_f_ext_hat_k t.k_f_ext_hat_k h.1.1.0 k.1.1.0 i;
    o_f_ext_hat_k = copied-source 6 s.o_f_ext_hat_k t.o_f_ext_hat_k h.1.1.1.0 k.1.1.1.0 i;
    o_dp_ee_d = copied-source 6 s.o_dp_ee_d t.o_dp_ee_d h.1.1.1.1.0 k.1.1.1.1.0 i;
    o_dp_ee_c = copied-source 6 s.o_dp_ee_c t.o_dp_ee_c h.1.1.1.1.1.0 k.1.1.1.1.1.0 i;
    o_ddp_ee_c = copied-source 6 s.o_ddp_ee_c t.o_ddp_ee_c h.1.1.1.1.1.1.0 k.1.1.1.1.1.1.0 i;
  }

  -- The arrays have their sizes.
  abbrev pub SizedJoints : Joints D → Type 0
  SizedJoints g =
      All (λ xs. length xs ≡ 7)
        (g.q ∷ g.q_d ∷ g.dq ∷ g.dq_d ∷ g.ddq_d ∷ g.tau_j ∷ g.dtau_j ∷ g.tau_j_d ∷ g.theta ∷ g.dtheta
          ∷ g.joint_collision ∷ g.joint_contact ∷ g.tau_ext_hat_filtered ∷ [])

  pub copy_joints_all : (s t : Joints D) → SizedJoints s → SizedJoints t → copy_joints s t ≡ s
  copy_joints_all s t h k = λ i. record {
    q = copied-source 7 s.q t.q h.0 k.0 i;
    q_d = copied-source 7 s.q_d t.q_d h.1.0 k.1.0 i;
    dq = copied-source 7 s.dq t.dq h.1.1.0 k.1.1.0 i;
    dq_d = copied-source 7 s.dq_d t.dq_d h.1.1.1.0 k.1.1.1.0 i;
    ddq_d = copied-source 7 s.ddq_d t.ddq_d h.1.1.1.1.0 k.1.1.1.1.0 i;
    tau_j = copied-source 7 s.tau_j t.tau_j h.1.1.1.1.1.0 k.1.1.1.1.1.0 i;
    dtau_j = copied-source 7 s.dtau_j t.dtau_j h.1.1.1.1.1.1.0 k.1.1.1.1.1.1.0 i;
    tau_j_d = copied-source 7 s.tau_j_d t.tau_j_d h.1.1.1.1.1.1.1.0 k.1.1.1.1.1.1.1.0 i;
    theta = copied-source 7 s.theta t.theta h.1.1.1.1.1.1.1.1.0 k.1.1.1.1.1.1.1.1.0 i;
    dtheta = copied-source 7 s.dtheta t.dtheta h.1.1.1.1.1.1.1.1.1.0 k.1.1.1.1.1.1.1.1.1.0 i;
    joint_collision =
        copied-source 7 s.joint_collision t.joint_collision h.1.1.1.1.1.1.1.1.1.1.0
          k.1.1.1.1.1.1.1.1.1.1.0 i;
    joint_contact =
        copied-source 7 s.joint_contact t.joint_contact h.1.1.1.1.1.1.1.1.1.1.1.0
          k.1.1.1.1.1.1.1.1.1.1.1.0 i;
    tau_ext_hat_filtered =
        copied-source 7 s.tau_ext_hat_filtered t.tau_ext_hat_filtered h.1.1.1.1.1.1.1.1.1.1.1.1.0
          k.1.1.1.1.1.1.1.1.1.1.1.1.0 i;
  }

  -- The arrays have their sizes.
  abbrev pub SizedElbows : Elbows D → Type 0
  SizedElbows g =
      All (λ xs. length xs ≡ 2) (g.elbow ∷ g.elbow_d ∷ g.elbow_c ∷ g.delbow_c ∷ g.ddelbow_c ∷ [])

  pub copy_elbows_all : (s t : Elbows D) → SizedElbows s → SizedElbows t → copy_elbows s t ≡ s
  copy_elbows_all s t h k = λ i. record {
    elbow = copied-source 2 s.elbow t.elbow h.0 k.0 i;
    elbow_d = copied-source 2 s.elbow_d t.elbow_d h.1.0 k.1.0 i;
    elbow_c = copied-source 2 s.elbow_c t.elbow_c h.1.1.0 k.1.1.0 i;
    delbow_c = copied-source 2 s.delbow_c t.delbow_c h.1.1.1.0 k.1.1.1.0 i;
    ddelbow_c = copied-source 2 s.ddelbow_c t.ddelbow_c h.1.1.1.1.0 k.1.1.1.1.0 i;
  }

  -- The arrays have their sizes.
  abbrev pub SizedTransforms : Transforms D → Type 0
  SizedTransforms g =
      All (λ xs. length xs ≡ 16)
        (g.o_t_ee ∷ g.f_t_ee ∷ g.f_t_ne ∷ g.ne_t_ee ∷ g.ee_t_k ∷ g.o_t_ee_d ∷ g.o_t_ee_c ∷ [])

  pub copy_transforms_all :
      (s t : Transforms D) → SizedTransforms s → SizedTransforms t → copy_transforms s t ≡ s
  copy_transforms_all s t h k = λ i. record {
    o_t_ee = copied-source 16 s.o_t_ee t.o_t_ee h.0 k.0 i;
    f_t_ee = copied-source 16 s.f_t_ee t.f_t_ee h.1.0 k.1.0 i;
    f_t_ne = copied-source 16 s.f_t_ne t.f_t_ne h.1.1.0 k.1.1.0 i;
    ne_t_ee = copied-source 16 s.ne_t_ee t.ne_t_ee h.1.1.1.0 k.1.1.1.0 i;
    ee_t_k = copied-source 16 s.ee_t_k t.ee_t_k h.1.1.1.1.0 k.1.1.1.1.0 i;
    o_t_ee_d = copied-source 16 s.o_t_ee_d t.o_t_ee_d h.1.1.1.1.1.0 k.1.1.1.1.1.0 i;
    o_t_ee_c = copied-source 16 s.o_t_ee_c t.o_t_ee_c h.1.1.1.1.1.1.0 k.1.1.1.1.1.1.0 i;
  }

  -- The arrays have their sizes.
  abbrev pub SizedInertias : Inertias D → Type 0
  SizedInertias g = All (λ xs. length xs ≡ 9) (g.i_ee ∷ g.i_load ∷ g.i_total ∷ [])

  pub copy_inertias_all :
      (s t : Inertias D) → SizedInertias s → SizedInertias t → copy_inertias s t ≡ s
  copy_inertias_all s t h k = λ i. record {
    i_ee = copied-source 9 s.i_ee t.i_ee h.0 k.0 i;
    i_load = copied-source 9 s.i_load t.i_load h.1.0 k.1.0 i;
    i_total = copied-source 9 s.i_total t.i_total h.1.1.0 k.1.1.0 i;
  }

  -- The arrays have their sizes.
  abbrev pub SizedCenters : Centers D → Type 0
  SizedCenters g = All (λ xs. length xs ≡ 3) (g.f_x_cee ∷ g.f_x_cload ∷ g.f_x_ctotal ∷ [])

  pub copy_centers_all : (s t : Centers D) → SizedCenters s → SizedCenters t → copy_centers s t ≡ s
  copy_centers_all s t h k = λ i. record {
    f_x_cee = copied-source 3 s.f_x_cee t.f_x_cee h.0 k.0 i;
    f_x_cload = copied-source 3 s.f_x_cload t.f_x_cload h.1.0 k.1.0 i;
    f_x_ctotal = copied-source 3 s.f_x_ctotal t.f_x_ctotal h.1.1.0 k.1.1.0 i;
  }
