-- ===== src/ControllerBase/Ros/Topics.antt =====
-- The topics of panda_controller_ros_interface.h.
use franka_gazebo.Prelude.{
  All, ℕ, zero, suc, ◌+◌, ◌≤◌, ◌<◌, ◌≡◌, refl, arith, ap, ◌∙◌, sym, true, not, all, none, some,
  List, [], ◌∷◌, ◌++◌, if◌then◌else◌, ◌==◌, Name, codes, length, Option-cases, inl, inr,
}
use franka_gazebo.MultiMode.Resources.{joined, vector_to_resource}
use franka_gazebo.ControllerBase.Ros.{
  replace_first, replace_all, topic_prefix, desired_pose_topic, parameters_topic,
}

-- The resource with "_and_" for each "&".
unfoldable pub spelled : Name → Name
spelled [] = []
spelled (c ∷ s) = if c == b'&' then codes "_and_" ++ spelled s else c ∷ spelled s

amps : Name → ℕ
amps [] = 0
amps (c ∷ s) = (if c == b'&' then 1 else 0) + amps s

amps-le-length : (s : Name) → amps s ≤ length s
unfolding amps
amps-le-length [] = omega arith
amps-le-length (c ∷ s) = ground (arith, amps-le-length s)

spelled-none : (s : Name) → replace_first s ≡ none → spelled s ≡ s
unfolding replace_first spelled
spelled-none [] h = refl
spelled-none (c ∷ s) h = ground (arith, spelled-none s)

spelled-some :
    (s t : Name) → replace_first s ≡ some t → (spelled t ≡ spelled s) × (amps t + 1 ≡ amps s)
unfolding replace_first spelled amps
spelled-some [] t h = absurd (cc)
spelled-some (c ∷ s) t h = elim (Option-cases (replace_first s)) [
  | inl e ↦ ground (arith, e)
  | inr (u, e) ↦ ground (arith, e, spelled-some s u)
]

replace_all-eq-spelled : (f : ℕ) (s : Name) → amps s < f → replace_all f s ≡ spelled s
unfolding replace_all
replace_all-eq-spelled zero s l = absurd (omega arith)
replace_all-eq-spelled (suc f) s l = elim (Option-cases (replace_first s)) [
  | inl e ↦ rw (e, replace_all) (sym (spelled-none s e))
  | inr (t, e) ↦
      rw (e, replace_all)
        (replace_all-eq-spelled f t (omega (arith, (spelled-some s t e).1))
          ∙ (spelled-some s t e).0)
]

-- A name without "&".
abbrev pub HasNoAmp : Name → Type 0
HasNoAmp n = all (λ c. not (c == b'&')) n ≡ true

-- The names with "_and_" between them.
abbrev and_joined : List Name → Name
and_joined [] = []
and_joined (n ∷ ns) = codes "_and_" ++ n ++ and_joined ns

abbrev pub joined_by_and : List Name → Name
joined_by_and [] = []
joined_by_and (n ∷ ns) = n ++ and_joined ns

spelled-plain : (n s : Name) → HasNoAmp n → spelled (n ++ s) ≡ n ++ spelled s
unfolding spelled
spelled-plain [] s h = refl
spelled-plain (c ∷ n) s h = ground (arith, spelled-plain n s)

spelled-joined : (ns : List Name) → All HasNoAmp ns → spelled (joined ns) ≡ and_joined ns
unfolding joined spelled
spelled-joined [] h = refl
spelled-joined (n ∷ ns) h =
    ap (λ s. codes "_and_" ++ s)
      (spelled-plain n (joined ns) h.0 ∙ ap (λ s. n ++ s) (spelled-joined ns h.1))

spelled-vector_to_resource :
    (ns : List Name) → All HasNoAmp ns → spelled (vector_to_resource ns) ≡ joined_by_and ns
unfolding vector_to_resource spelled
spelled-vector_to_resource [] h = refl
spelled-vector_to_resource (n ∷ ns) h =
    spelled-plain n (joined ns) h.0 ∙ ap (λ s. n ++ s) (spelled-joined ns h.1)

topic_prefix_lem :
    (resource name : Name) → topic_prefix resource name ≡ spelled resource ++ codes "/" ++ name
unfolding topic_prefix
topic_prefix_lem resource name =
    ap (λ s. s ++ codes "/" ++ name)
      (replace_all-eq-spelled (length resource + 1) resource
        (omega (arith, amps-le-length resource)))

-- The topics of a controller for several arms, whose names have no "&", begin with these names joined by
-- "_and_" and the controller's name: the loop that replaces the "&" ends and leaves none.
pub topics-vector_to_resource :
    (ns : List Name) (name : Name)
    → All HasNoAmp ns
    → (desired_pose_topic (vector_to_resource ns) name
        ≡ (joined_by_and ns ++ codes "/" ++ name) ++ codes "/desired_pose")
      × (parameters_topic (vector_to_resource ns) name
          ≡ (joined_by_and ns ++ codes "/" ++ name) ++ codes "/parameters")
unfolding desired_pose_topic parameters_topic
topics-vector_to_resource ns name h =
    let e =
      topic_prefix_lem (vector_to_resource ns) name
      ∙ ap (λ s. s ++ codes "/" ++ name) (spelled-vector_to_resource ns h) in
    (ap (λ s. s ++ codes "/desired_pose") e, ap (λ s. s ++ codes "/parameters") e)
