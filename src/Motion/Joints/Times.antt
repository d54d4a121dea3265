-- ===== src/Motion/Joints/Times.antt =====
-- The end times of a trajectory over joint poses in poly_c2_joint_motion_generator_base.h.
use franka_gazebo.Prelude.{
  ℕ, suc, ◌+◌, ◌≡◌, refl, arith, Bool, true, false, Option, none, some, List, [], ◌∷◌, ◌++◌, length,
  get_elem?, length-append, append_assoc, append-nil, sym, ap, ◌∙◌, Bool-cases, inl, inr, subst,
  if◌then◌else◌,
}
use franka_gazebo.Motion.{Real, back, size_minus_one}
use franka_gazebo.Motion.Joints.{
  Pose, JointLimits, is_bad_scale, time_between, get_time, get_end_vel, fill_times, generate_times,
}

module _ {A : Type 0} where
  get_elem?-append :
      (xs : List A) (y : A) (ys : List A) → get_elem? (xs ++ y ∷ ys) (length xs) ≡ some y
  get_elem?-append [] y ys = refl
  get_elem?-append (x ∷ xs) y ys = get_elem?-append xs y ys

  back-append : (xs : List A) (y : A) → back (xs ++ y ∷ []) ≡ some y
  back-append [] y = refl
  back-append (x ∷ []) y = refl
  back-append (x ∷ z ∷ xs) y = back-append (z ∷ xs) y

  get_elem?-append_next :
      (xs : List A) (y z : A) (ys : List A)
      → get_elem? (xs ++ y ∷ z ∷ ys) (suc (length xs)) ≡ some z
  get_elem?-append_next [] y z ys = refl
  get_elem?-append_next (x ∷ xs) y z ys = get_elem?-append_next xs y z ys

  size_minus_one-append :
      (xs : List A) (y : A) (ys : List A) → size_minus_one (xs ++ y ∷ ys) ≡ length xs + length ys
  size_minus_one-append [] y ys = omega arith
  size_minus_one-append (x ∷ xs) y ys = omega (arith, length-append xs (y ∷ ys))

  regroup : (xs : List A) (y z : A) (ys : List A) → xs ++ y ∷ z ∷ ys ≡ (xs ++ y ∷ []) ++ z ∷ ys
  regroup [] y z ys = refl
  regroup (x ∷ xs) y z ys = ap (λ l. x ∷ l) (regroup xs y z ys)

module _ {D : Type 0} (r : Real D) (limits : JointLimits D) (v_scale : D) where
  -- The end times after the pose `prev`, which is reached at `t`.
  abbrev pub later_ends : (prev : Pose D) (t : D) (vias : List (Pose D)) → List D
  later_ends prev t [] = []
  later_ends prev t (q ∷ vias) =
      let t' = r.plus t (time_between r limits v_scale prev q) in t' ∷ later_ends q t' vias

  -- The end times along the poses.
  abbrev pub ends : (current : Pose D) (vias : List (Pose D)) → List D
  ends current [] = []
  ends current (q ∷ vias) =
      let t = time_between r limits v_scale current q in t ∷ later_ends q t vias

  pub length-later_ends :
      (prev : Pose D) (t : D) (vias : List (Pose D)) → length (later_ends prev t vias) ≡ length vias
  length-later_ends prev t [] = refl
  length-later_ends prev t (q ∷ vias) =
      ap suc (length-later_ends q (r.plus t (time_between r limits v_scale prev q)) vias)

  pub length-ends :
      (current : Pose D) (vias : List (Pose D)) → length (ends current vias) ≡ length vias
  length-ends current [] = refl
  length-ends current (q ∷ vias) =
      ap suc (length-later_ends q (time_between r limits v_scale current q) vias)

  get_time_next :
      (current : Pose D) (seen : List (Pose D)) (q n : Pose D) (vias : List (Pose D))
      → get_time r limits current (seen ++ q ∷ n ∷ vias) v_scale (length seen + 1)
        ≡ some (time_between r limits v_scale q n)
  unfolding get_time
  get_time_next current seen q n vias =
      ground (arith, get_elem?-append seen q (n ∷ vias), get_elem?-append_next seen q n vias)

  get_end_vel_last :
      (current : Pose D) (seen : List (Pose D)) (q : Pose D) (times : List D)
      → get_end_vel r limits current times (seen ++ q ∷ []) v_scale (length seen) ≡ some times
  unfolding get_end_vel
  get_end_vel_last current seen q times = ground (arith, size_minus_one-append seen q [])

  get_end_vel_next :
      (current : Pose D) (seen : List (Pose D)) (q n : Pose D) (vias : List (Pose D))
      (times : List D) (t : D)
      → get_end_vel r limits current (times ++ t ∷ []) (seen ++ q ∷ n ∷ vias) v_scale (length seen)
        ≡ some ((times ++ t ∷ []) ++ r.plus t (time_between r limits v_scale q n) ∷ [])
  unfolding get_end_vel
  get_end_vel_next current seen q n vias times t = ground (
    arith,
    size_minus_one-append seen q (n ∷ vias),
    back-append times t,
    get_time_next current seen q n vias,
  )

  fill_times_step :
      (current : Pose D) (vias : List (Pose D)) (left i : ℕ) (times more : List D)
      → get_end_vel r limits current times vias v_scale i ≡ some more
      → fill_times r limits current vias v_scale (suc left) i times
        ≡ fill_times r limits current vias v_scale left (i + 1) more
  unfolding fill_times
  fill_times_step current vias left i times more e = ground (arith, e)

  -- From the section of the pose `q`, with the poses `seen` in front of it and `vias` behind it, where
  -- `q` is reached at `t`.
  fill_times_lem :
      (current : Pose D) (seen : List (Pose D)) (q : Pose D) (vias : List (Pose D)) (times : List D)
      (t : D)
      → fill_times r limits current
          (seen ++ q ∷ vias)
          v_scale
          (suc (length vias))
          (length seen)
          (times ++ t ∷ [])
        ≡ some ((times ++ t ∷ []) ++ later_ends q t vias)
  unfolding fill_times
  fill_times_lem current seen q [] times t =
      fill_times_step current (seen ++ q ∷ []) 0 (length seen) (times ++ t ∷ []) (times ++ t ∷ [])
        (get_end_vel_last current seen q (times ++ t ∷ []))
      ∙ ap some (sym (append-nil (times ++ t ∷ [])))
  fill_times_lem current seen q (n ∷ vias) times t =
      let t' = r.plus t (time_between r limits v_scale q n) in
      let before = times ++ t ∷ [] in
      fill_times_step current (seen ++ q ∷ n ∷ vias) (suc (length vias)) (length seen) before
        (before ++ t' ∷ []) (get_end_vel_next current seen q n vias times t)
      ∙ subst
          (λ i.
            fill_times r limits current (seen ++ q ∷ n ∷ vias) v_scale (suc (length vias)) i
              (before ++ t' ∷ [])
            ≡ some (before ++ t' ∷ later_ends n t' vias))
          (length-append seen (q ∷ []))
          (subst
            (λ l.
              fill_times r limits current l v_scale (suc (length vias)) (length (seen ++ q ∷ []))
                (before ++ t' ∷ [])
              ≡ some (before ++ t' ∷ later_ends n t' vias))
            (sym (regroup seen q n vias))
            (fill_times_lem current (seen ++ q ∷ []) n vias before t'
              ∙ ap some (append_assoc before (t' ∷ []) (later_ends n t' vias))))

  -- What the trajectory's times should be: none for a `v_scale` that is refused, else the sums of the
  -- times from pose to pose; undefined where there is no pose.
  abbrev pub times_along : (current : Pose D) (vias : List (Pose D)) → Option (Bool × List D)
  times_along current [] = none
  times_along current (q ∷ vias) = some (true, ends current (q ∷ vias))

  with_start :
      (current : Pose D) (vias : List (Pose D)) (t : D) (more : List D)
      → is_bad_scale r limits v_scale ≡ false
      → get_time r limits current vias v_scale 0 ≡ some t
      → fill_times r limits current vias v_scale (length vias) 0 (t ∷ []) ≡ some more
      → generate_times r limits current vias v_scale ≡ some (true, more)
  unfolding generate_times
  with_start current vias t more b e f = ground (arith, e, f)

  without_start :
      (current : Pose D)
      → is_bad_scale r limits v_scale ≡ false
      → generate_times r limits current [] v_scale ≡ none
  unfolding generate_times get_time
  without_start current b = ground arith

  bad_scale_times :
      (current : Pose D) (vias : List (Pose D))
      → is_bad_scale r limits v_scale ≡ true
      → generate_times r limits current vias v_scale ≡ some (false, [])
  unfolding generate_times
  bad_scale_times current vias b = ground arith

  pub good_scale_times :
      (current : Pose D) (vias : List (Pose D))
      → is_bad_scale r limits v_scale ≡ false
      → generate_times r limits current vias v_scale ≡ times_along current vias
  unfolding get_time
  good_scale_times current [] b = without_start current b
  good_scale_times current (q ∷ vias) b =
      let t = time_between r limits v_scale current q in
      with_start current (q ∷ vias) t (ends current (q ∷ vias)) b refl
        (fill_times_lem current [] q vias [] t)

  -- The loop that generates the end times agrees with the sums of the times from pose to pose, for any
  -- number of poses, and fails exactly for a `v_scale` that is refused; with no pose it is undefined.
  pub generate_times-eq-times_along :
      (current : Pose D) (vias : List (Pose D))
      → generate_times r limits current vias v_scale
        ≡ (if is_bad_scale r limits v_scale then some (false, []) else times_along current vias)
  generate_times-eq-times_along current vias = elim (Bool-cases (is_bad_scale r limits v_scale)) [
    | inl b ↦ rw b (bad_scale_times current vias b)
    | inr b ↦ rw b (good_scale_times current vias b)
  ]
