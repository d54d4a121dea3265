-- ===== src/Motion/Server/Safety.antt =====
-- What a running goal of motion_generator_ros_interface.h keeps, and what a rejected one does to it.
use franka_gazebo.Prelude.{
  ℕ, ◌≤◌, ◌<◌, ◌≡◌, refl, arith, Bool, true, Option, none, some, List, [], ◌∷◌, All, length,
  Bool-cases, inl, inr, ◌⊎◌,
}
use franka_gazebo.Motion.{
  Real, Generator, Stepped, held, moved, step, set_time_scaling, start_scaling, generate_trajectory,
}
use franka_gazebo.Motion.Sections.{IsOnTrack, Steps, step-Steps}
use franka_gazebo.Motion.Server.{
  idle, Server, Output, Ending, running, canceled, succeeded, Request, Call, scaling, offset,
  recovery_started, touched, new_goal, Round, begin, handle_goal, call, call_all, take_scaling,
  update_state, after_step, is_active, execute_trajectory, with_outputs, execute_rounds,
}

-- Calls without a new goal.
abbrev pub IsQuiet : {D Via Config : Type 0} → Call D Via Config → Type 0
IsQuiet (scaling x n) = Unit
IsQuiet (offset b) = Unit
IsQuiet recovery_started = Unit
IsQuiet touched = Unit
IsQuiet (new_goal q) = ⊥

pub record IsUndisturbed {D Via Config : Type 0} (q : Round D Via Config) : Type 0 where
  pub updates : All IsQuiet q.before_update
  pub steps : All IsQuiet q.before_step

module _ {D Via Config : Type 0} where
  -- The trajectory of `s` is still that of `h`, at the same section or a later one.
  pub record Keeps (s h : Server D Via Config) : Type 0 where
    pub on_track : IsOnTrack h.base
    pub same_times : h.base.end_times ≡ s.base.end_times
    pub same_poses : h.base.via_poses ≡ s.base.via_poses
    pub up : s.base.current_section ≤ h.base.current_section

  Keeps-refl : (s : Server D Via Config) → IsOnTrack s.base → Keeps s s
  Keeps-refl s v = ground arith

  Keeps-trans : (s h k : Server D Via Config) → Keeps s h → Keeps h k → Keeps s k
  Keeps-trans s h k a b = ground arith

  abbrev pub Runs :
      {Goal : Type 0} (s : Server D Via Config)
      → Option (Server D Via Config × List (Output D Goal) × Ending)
      → Type 0
  Runs s none = ⊥
  Runs s (some (h, outputs, ending)) = Keeps s h × ((ending ≡ running) ⊎ (h.state ≡ idle))

  module _ (r : Real D) (plan : Via → List Via → Config → Bool × List D) where
    call-Keeps :
        (c : Call D Via Config) (s : Server D Via Config)
        → IsQuiet c
        → IsOnTrack s.base
        → Keeps s (call r plan c s)
    unfolding call
    call-Keeps (scaling x n) s q v = ground arith
    call-Keeps (offset b) s q v = ground arith
    call-Keeps recovery_started s q v = ground arith
    call-Keeps touched s q v = ground arith
    call-Keeps (new_goal g) s q v = absurd q

    call_all-Keeps :
        (cs : List (Call D Via Config)) (s : Server D Via Config)
        → All IsQuiet cs
        → IsOnTrack s.base
        → Keeps s (call_all r plan cs s)
    call_all-Keeps [] s q v = Keeps-refl s v
    call_all-Keeps (c ∷ cs) s q v =
        let k = call-Keeps c s q.0 v in
        Keeps-trans s (call r plan c s) (call_all r plan cs (call r plan c s)) k
          (call_all-Keeps cs (call r plan c s) q.1 k.on_track)

    take_scaling-Keeps : (s : Server D Via Config) → IsOnTrack s.base → Keeps s (take_scaling r s)
    unfolding take_scaling set_time_scaling
    take_scaling-Keeps s v = ground arith

    update_state-Keeps :
        (b : Bool) (s : Server D Via Config)
        → IsOnTrack s.base
        → Keeps s (update_state r b s).0
          × (((update_state r b s).1 ≡ running) ⊎ ((update_state r b s).0.state ≡ idle))
    unfolding update_state
    update_state-Keeps b s v = ground (arith, take_scaling-Keeps s v)

    handle_goal_accepts :
        (q : Request Via Config) (pose : Via) (s : Server D Via Config)
        → q.is_accepted ≡ true
        → q.current ≡ some pose
        → (plan pose q.vias q.config).0 ≡ true
        → (handle_goal r plan q s).1 ≡ true
    unfolding handle_goal generate_trajectory
    handle_goal_accepts q pose s a c d = ground arith

    handle_goal-IsOnTrack :
        (q : Request Via Config) (pose : Via) (s : Server D Via Config)
        → q.is_accepted ≡ true
        → q.current ≡ some pose
        → length (plan pose q.vias q.config).1 ≡ length q.vias
        → 0 < length q.vias
        → IsOnTrack (handle_goal r plan q s).0.base
    unfolding handle_goal generate_trajectory
    handle_goal-IsOnTrack q pose s a c e l = ground arith

    begin-IsOnTrack : (s : Server D Via Config) → IsOnTrack s.base → IsOnTrack (begin r s).base
    unfolding begin take_scaling set_time_scaling start_scaling
    begin-IsOnTrack s v = ground arith

    module _ {Goal : Type 0} (step_impl : ℕ → D → Goal) where
      abbrev Executes :
          Server D Via Config → Option (Server D Via Config × List (Output D Goal)) → Type 0
      Executes s none = ⊥
      Executes s (some (h, outputs)) = Keeps s h

      after_step-Keeps :
          (s : Server D Via Config) (o : Option (Generator D Via Config × Stepped D Goal))
          → Steps s.base o
          → Executes s
              (elim o [ none ↦ none | some stepped ↦ some (after_step r step_impl s stepped) ])
      after_step-Keeps s none h = h
      after_step-Keeps s (some (base, held)) h = ground arith
      after_step-Keeps s (some (base, moved g progress left)) h = ground arith

      execute_trajectory-Keeps :
          (s : Server D Via Config)
          → IsOnTrack s.base
          → Executes s (execute_trajectory r step_impl s)
      unfolding execute_trajectory
      execute_trajectory-Keeps s v = elim (Bool-cases (is_active s.state)) [
        | inl a ↦ rw a (
            after_step-Keeps s (step r step_impl s.has_offset s.base)
              (step-Steps r step_impl s.has_offset s.base v))
        | inr a ↦ rw a (Keeps-refl s v)
      ]

      with-Runs :
          (s k : Server D Via Config) (outputs : List (Output D Goal))
          (o : Option (Server D Via Config × List (Output D Goal) × Ending))
          → Keeps s k
          → Runs k o
          → Runs s (with_outputs r step_impl outputs o)
      with-Runs s k outputs none a h = h
      with-Runs s k outputs (some (h', more, ending)) a h = (Keeps-trans s k h' a h.0, h.1)

      -- The rest of the loop from a round, whose step gave `o`.
      then_Runs :
          (s u : Server D Via Config) (o : Option (Server D Via Config × List (Output D Goal)))
          (go : Server D Via Config → Option (Server D Via Config × List (Output D Goal) × Ending))
          → Keeps s u
          → Executes u o
          → ((k : Server D Via Config) → IsOnTrack k.base → Runs k (go k))
          → Runs s (elim o [
            | none ↦ none
            | some (next, outputs) ↦ with_outputs r step_impl outputs (go next)
          ])
      then_Runs s u none go a h each = h
      then_Runs s u (some (next, outputs)) go a h each =
          with-Runs s next outputs (go next) (Keeps-trans s u next a h) (each next h.on_track)

      -- What `updateState` decides, with the rest of the round.
      ended-Runs :
          (s u : Server D Via Config) (e : Ending)
          (rest : Option (Server D Via Config × List (Output D Goal) × Ending))
          → Keeps s u
          → (e ≡ running) ⊎ (u.state ≡ idle)
          → Runs s rest
          → Runs s (elim e [
            | canceled ↦ some (u, [], canceled)
            | succeeded ↦ some (u, [], succeeded)
            | running ↦ rest
          ])
      ended-Runs s u running rest a b h = h
      ended-Runs s u canceled rest a b h = (a, inr (ground arith))
      ended-Runs s u succeeded rest a b h = (a, inr (ground arith))

      rounds-Runs :
          (rounds : List (Round D Via Config)) (s : Server D Via Config)
          → All IsUndisturbed rounds
          → IsOnTrack s.base
          → Runs s (execute_rounds r step_impl plan rounds s)
      unfolding execute_rounds
      rounds-Runs [] s q v = (Keeps-refl s v, inl refl)
      rounds-Runs (q ∷ rounds) s quiet v =
          let called = call_all r plan q.before_update s in
          let a = call_all-Keeps q.before_update s quiet.0.updates v in
          let updated = update_state r q.is_canceling called in
          let b = update_state-Keeps q.is_canceling called a.on_track in
          let ready = call_all r plan q.before_step updated.0 in
          let c = call_all-Keeps q.before_step updated.0 quiet.0.steps b.0.on_track in
          let ab = Keeps-trans s called updated.0 a b.0 in
          ended-Runs s updated.0 updated.1
            (elim (execute_trajectory r step_impl ready) [
              | none ↦ none
              | some (next, outputs) ↦
                  with_outputs r step_impl outputs (execute_rounds r step_impl plan rounds next)
            ])
            ab b.1
            (then_Runs s ready (execute_trajectory r step_impl ready)
              (execute_rounds r step_impl plan rounds) (Keeps-trans s updated.0 ready ab c)
              (execute_trajectory-Keeps ready c.on_track) (λ k w. rounds-Runs rounds k quiet.1 w))

      -- A goal that is accepted, with at least one via pose and an end time for each, runs safely: no
      -- round indexes the end times or the poses out of range, whatever the calls, cancellations and
      -- time scalings between them, as long as no new goal arrives. The trajectory stays the one that was
      -- planned, its section never goes back, and where the goal ends the server is idle.
      pub execute_goal-Runs :
          (q : Request Via Config) (pose : Via) (s : Server D Via Config)
          (rounds : List (Round D Via Config))
          → q.is_accepted ≡ true
          → q.current ≡ some pose
          → (plan pose q.vias q.config).0 ≡ true
          → length (plan pose q.vias q.config).1 ≡ length q.vias
          → 0 < length q.vias
          → All IsUndisturbed rounds
          → ((handle_goal r plan q s).1 ≡ true)
            × Runs
                (begin r (handle_goal r plan q s).0)
                (execute_rounds r step_impl plan rounds (begin r (handle_goal r plan q s).0))
      execute_goal-Runs q pose s rounds a c d e l quiet = (
        handle_goal_accepts q pose s a c d,
        rounds-Runs rounds (begin r (handle_goal r plan q s).0) quiet
            (begin-IsOnTrack (handle_goal r plan q s).0 (handle_goal-IsOnTrack q pose s a c e l)),
      )
