-- ===== src/Motion/Server/Finish.antt =====
-- A goal of motion_generator_ros_interface.h comes to its end.
use franka_gazebo.Prelude.{
  ℕ, zero, suc, ◌<◌, ◌≡◌, refl, arith, Bool, true, false, Option, none, some, List, [], ◌∷◌, any,
  map, length, Bool-cases, subst, sym, inl, inr, ◌⊎◌, ℤ, pos, negsuc,
}
use franka_gazebo.Motion.{
  Real, back, step, set_time_scaling, start_scaling, scaled, advanced, turned,
}
use franka_gazebo.Motion.Sections.{IsOnTrack, some_elem, size_lem}
use franka_gazebo.Motion.Server.{
  idle, moving, Server, Output, Ending, running, canceled, succeeded, Round, begin, take_scaling,
  update_state, execute_trajectory, with_outputs, execute_rounds,
}

-- A round in which no other thread calls.
abbrev pub alone : {D Via Config : Type 0} → Bool → Round D Via Config
alone is_canceling = record { before_update = []; is_canceling = is_canceling; before_step = [] }

-- The test `steps_ > 0`.
abbrev pub has_steps : ℤ → Bool
has_steps (pos zero) = false
has_steps (pos (suc n)) = true
has_steps (negsuc n) = false

abbrev pub is_over : {D : Type 0} → Real D → D → Bool
is_over r progress = r.at_most (r.lit 1) progress

abbrev pub next_time : {D : Type 0} → Real D → D → D → D
next_time r speed t = r.plus t (r.times r.period speed)

-- The time after n steps at the scaling `speed`.
abbrev pub time_after : {D : Type 0} → Real D → D → ℕ → D → D
time_after r speed zero t = t
time_after r speed (suc n) t = time_after r speed n (next_time r speed t)

abbrev pub Finishes :
    {D Via Config Goal : Type 0} (cancels : List Bool)
    → Option (Server D Via Config × List (Output D Goal) × Ending)
    → Type 0
Finishes cancels none = ⊥
Finishes cancels (some (h, outputs, ending)) =
    (h.state ≡ idle)
    × ((ending ≡ succeeded) ⊎ ((ending ≡ canceled) × (any (λ b. b) cancels ≡ true)))

module _ {D Via Config : Type 0} (r : Real D) (speed last : D) where
  -- A goal that moves at the scaling `speed` to the end time `last`.
  pub record IsSteady (s : Server D Via Config) : Type 0 where
    pub on_track : IsOnTrack s.base
    pub state : s.state ≡ moving
    pub abort : s.abort ≡ false
    pub has_offset : s.has_offset ≡ false
    pub steps : has_steps s.steps ≡ false
    pub scaling : s.base.scaling ≡ speed
    pub at_scale : r.less s.base.scaling_progress (r.lit 1) ≡ false
    pub finish : back s.base.end_times ≡ some last

  module _ {Goal : Type 0} (step_impl : ℕ → D → Goal) where
    abbrev Moves :
        Server D Via Config → Option (Server D Via Config × List (Output D Goal)) → Type 0
    Moves s none = ⊥
    Moves s (some (h, outputs)) =
        IsSteady h
        × (h.base.t ≡ next_time r speed s.base.t)
        × (h.progress ≡ r.over (next_time r speed s.base.t) last)

    execute_trajectory-Moves :
        (s : Server D Via Config) → IsSteady s → Moves s (execute_trajectory r step_impl s)
    unfolding execute_trajectory step scaled advanced turned
    execute_trajectory-Moves s v =
        let (finish, e) = some_elem s.base.end_times s.base.current_section v.on_track.section in
        ground (arith, e, v.finish, size_lem s.base.via_poses)

    update-Steady :
        (s : Server D Via Config)
        → IsSteady s
        → is_over r s.progress ≡ false
        → update_state r false s ≡ (s, running)
    unfolding update_state take_scaling
    update-Steady s v o = ground arith

    update_over :
        (s : Server D Via Config)
        → IsSteady s
        → is_over r s.progress ≡ true
        → ((update_state r false s).1 ≡ succeeded) × ((update_state r false s).0.state ≡ idle)
    unfolding update_state take_scaling
    update_over s v o = ground arith

    update_canceled :
        (s : Server D Via Config)
        → ((update_state r true s).1 ≡ canceled) × ((update_state r true s).0.state ≡ idle)
    unfolding update_state
    update_canceled s = ground arith

    with-Finishes :
        (cancels : List Bool) (outputs : List (Output D Goal))
        (o : Option (Server D Via Config × List (Output D Goal) × Ending))
        → Finishes cancels o
        → Finishes cancels (with_outputs r step_impl outputs o)
    with-Finishes cancels outputs none h = h
    with-Finishes cancels outputs (some (s, more, ending)) h = h

    then-Finishes :
        (cancels : List Bool) (s : Server D Via Config)
        (o : Option (Server D Via Config × List (Output D Goal)))
        (go : Server D Via Config → Option (Server D Via Config × List (Output D Goal) × Ending))
        → Moves s o
        → ((h : Server D Via Config)
            → IsSteady h
            → h.base.t ≡ next_time r speed s.base.t
            → h.progress ≡ r.over (next_time r speed s.base.t) last
            → Finishes cancels (go h))
        → Finishes cancels (elim o [
          | none ↦ none
          | some (next, outputs) ↦ with_outputs r step_impl outputs (go next)
        ])
    then-Finishes cancels s none go h each = h
    then-Finishes cancels s (some (next, outputs)) go h each =
        with-Finishes cancels outputs (go next) (each next h.0 h.1 h.2)

    later-Finishes :
        (b : Bool) (cancels : List Bool)
        (o : Option (Server D Via Config × List (Output D Goal) × Ending))
        → Finishes cancels o
        → Finishes (b ∷ cancels) o
    later-Finishes b cancels none h = h
    later-Finishes b cancels (some (s, outputs, ending)) h = ground arith

    -- A round of its own, after `updateState` gave `p`.
    abbrev decided :
        (Server D Via Config → Option (Server D Via Config × List (Output D Goal) × Ending))
        → Server D Via Config × Ending
        → Option (Server D Via Config × List (Output D Goal) × Ending)
    decided go (u, ending) = elim ending [
      | canceled ↦ some (u, [], canceled)
      | succeeded ↦ some (u, [], succeeded)
      | running ↦ elim (execute_trajectory r step_impl u) [
        | none ↦ none
        | some (next, outputs) ↦ with_outputs r step_impl outputs (go next)
      ]
    ]

    decided_canceled :
        (cancels : List Bool) (p : Server D Via Config × Ending)
        (go : Server D Via Config → Option (Server D Via Config × List (Output D Goal) × Ending))
        → p.1 ≡ canceled
        → p.0.state ≡ idle
        → Finishes (true ∷ cancels) (decided go p)
    decided_canceled cancels (u, canceled) go e i = (i, inr (refl, refl))
    decided_canceled cancels (u, running) go e i = absurd (cc)
    decided_canceled cancels (u, succeeded) go e i = absurd (cc)

    decided_succeeded :
        (cancels : List Bool) (p : Server D Via Config × Ending)
        (go : Server D Via Config → Option (Server D Via Config × List (Output D Goal) × Ending))
        → p.1 ≡ succeeded
        → p.0.state ≡ idle
        → Finishes cancels (decided go p)
    decided_succeeded cancels (u, succeeded) go e i = (i, inl refl)
    decided_succeeded cancels (u, running) go e i = absurd (cc)
    decided_succeeded cancels (u, canceled) go e i = absurd (cc)

    -- The end time is reached after n steps more.
    abbrev Arrives : ℕ → Server D Via Config → Type 0
    Arrives zero s = is_over r s.progress ≡ true
    Arrives (suc n) s = is_over r (r.over (time_after r speed (suc n) s.base.t) last) ≡ true

    later-Arrives :
        (n : ℕ) (s h : Server D Via Config)
        → Arrives (suc n) s
        → h.base.t ≡ next_time r speed s.base.t
        → h.progress ≡ r.over (next_time r speed s.base.t) last
        → Arrives n h
    later-Arrives zero s h o t p = rw p o
    later-Arrives (suc n) s h o t p = rw t o

    decided_running :
        (cancels : List Bool) (n : ℕ) (s : Server D Via Config)
        (go : Server D Via Config → Option (Server D Via Config × List (Output D Goal) × Ending))
        → IsSteady s
        → is_over r s.progress ≡ false
        → Arrives n s
        → n < length (false ∷ cancels)
        → ((k : ℕ) (h : Server D Via Config)
            → IsSteady h
            → Arrives k h
            → k < length cancels
            → Finishes cancels (go h))
        → Finishes cancels (decided go (s, running))
    decided_running cancels zero s go v o a l each = absurd (ground (arith, o, a))
    decided_running cancels (suc n) s go v o a l each =
        then-Finishes cancels s (execute_trajectory r step_impl s) go (execute_trajectory-Moves s v)
          (λ h w t p. each n h w (later-Arrives n s h a t p) (omega arith))

    rounds-Finishes :
        (plan : Via → List Via → Config → Bool × List D) (cancels : List Bool) (n : ℕ)
        (s : Server D Via Config)
        → IsSteady s
        → Arrives n s
        → n < length cancels
        → Finishes cancels (execute_rounds r step_impl plan (map alone cancels) s)
    unfolding execute_rounds
    rounds-Finishes plan [] n s v a l = absurd (omega arith)
    rounds-Finishes plan (true ∷ cancels) n s v a l =
        let over = update_canceled s in
        decided_canceled cancels (update_state r true s)
          (execute_rounds r step_impl plan (map alone cancels)) over.0 over.1
    rounds-Finishes plan (false ∷ cancels) n s v a l =
        let go = execute_rounds r step_impl plan (map alone cancels) in
        elim (Bool-cases (is_over r s.progress)) [
          | inl o ↦
              let over = update_over s v o in
              decided_succeeded (false ∷ cancels) (update_state r false s) go over.0 over.1
          | inr o ↦
              subst (λ p. Finishes (false ∷ cancels) (decided go p)) (sym (update-Steady s v o))
                (later-Finishes false cancels (decided go (s, running)) (
                  decided_running cancels n s go v o a l (λ k h. rounds-Finishes plan cancels k h)))
        ]

module _ {D Via Config Goal : Type 0} (r : Real D) (step_impl : ℕ → D → Goal) where
  begin-IsSteady :
      (s : Server D Via Config) (last : D)
      → r.less (r.lit 1) (r.lit 1) ≡ false
      → IsOnTrack s.base
      → back s.base.end_times ≡ some last
      → IsSteady r (begin r s).base.scaling last (begin r s)
  unfolding begin take_scaling set_time_scaling start_scaling
  begin-IsSteady s last one v e = ground arith

  -- A goal with a trajectory comes to its end, where no other thread calls: if n + 1 steps at the time
  -- scaling that it starts with reach the end time from the time that it starts with, then within n + 2
  -- rounds it has succeeded, or it was canceled because a cancellation came; the server is idle then.
  pub execute_goal-Finishes :
      (plan : Via → List Via → Config → Bool × List D) (n : ℕ) (s : Server D Via Config) (last : D)
      (cancels : List Bool)
      → r.less (r.lit 1) (r.lit 1) ≡ false
      → IsOnTrack s.base
      → back s.base.end_times ≡ some last
      → is_over r (r.over (time_after r (begin r s).base.scaling (suc n) (begin r s).base.t) last)
        ≡ true
      → suc n < length cancels
      → Finishes cancels (execute_rounds r step_impl plan (map alone cancels) (begin r s))
  execute_goal-Finishes plan n s last cancels one v e up l =
      rounds-Finishes r (begin r s).base.scaling last step_impl plan cancels (suc n) (begin r s)
        (begin-IsSteady s last one v e) up l
