-- ===== src/Motion/Server/Stall.antt =====
-- What a new goal that is rejected does to a goal that runs in motion_generator_ros_interface.h.
use franka_gazebo.Prelude.{
  ℕ, ◌≡◌, refl, arith, Bool, false, Option, none, some, List, [], ◌∷◌, All, ◌⊎◌,
}
use franka_gazebo.Motion.{Real}
use franka_gazebo.Motion.Server.{
  idle, Server, Output, Ending, running, canceled, succeeded, Request, Call, scaling, offset,
  recovery_started, touched, new_goal, Round, handle_goal, call, call_all, take_scaling,
  update_state, execute_trajectory, with_outputs, execute_rounds,
}
use franka_gazebo.Motion.Server.Safety.{IsQuiet, IsUndisturbed}

module _ {D Via Config : Type 0} where
  pub record IsStalled (s : Server D Via Config) : Type 0 where
    pub state : s.state ≡ idle
    pub abort : s.abort ≡ false

  -- A goal that goes on and does nothing.
  abbrev pub Stalls :
      {Goal : Type 0} → Option (Server D Via Config × List (Output D Goal) × Ending) → Type 0
  Stalls none = ⊥
  Stalls (some (h, outputs, ending)) = IsStalled h × (outputs ≡ []) × (ending ≡ running)

  module _ (r : Real D) (plan : Via → List Via → Config → Bool × List D) where
    call-IsStalled :
        (c : Call D Via Config) (s : Server D Via Config)
        → IsQuiet c
        → IsStalled s
        → IsStalled (call r plan c s)
    unfolding call
    call-IsStalled (scaling x n) s q v = ground arith
    call-IsStalled (offset b) s q v = ground arith
    call-IsStalled recovery_started s q v = ground arith
    call-IsStalled touched s q v = ground arith
    call-IsStalled (new_goal g) s q v = absurd q

    call_all-IsStalled :
        (cs : List (Call D Via Config)) (s : Server D Via Config)
        → All IsQuiet cs
        → IsStalled s
        → IsStalled (call_all r plan cs s)
    call_all-IsStalled [] s q v = v
    call_all-IsStalled (c ∷ cs) s q v =
        call_all-IsStalled cs (call r plan c s) q.1 (call-IsStalled c s q.0 v)

    update_state-IsStalled :
        (b : Bool) (s : Server D Via Config)
        → b ≡ false
        → IsStalled s
        → IsStalled (update_state r b s).0 × ((update_state r b s).1 ≡ running)
    unfolding update_state take_scaling
    update_state-IsStalled b s e v = ground arith

    rejected :
        (q : Request Via Config) (s : Server D Via Config)
        → (q.is_accepted ≡ false) ⊎ (q.current ≡ none)
        → s.abort ≡ false
        → ((handle_goal r plan q s).1 ≡ false) × IsStalled (handle_goal r plan q s).0
    unfolding handle_goal
    rejected q s refused a = ground arith

    module _ {Goal : Type 0} (step_impl : ℕ → D → Goal) where
      execute_trajectory_stalled :
          (s : Server D Via Config) → IsStalled s → execute_trajectory r step_impl s ≡ some (s, [])
      unfolding execute_trajectory
      execute_trajectory_stalled s v = ground (arith, v.state)

      with-Stalls :
          (o : Option (Server D Via Config × List (Output D Goal) × Ending))
          → Stalls o
          → Stalls (with_outputs r step_impl [] o)
      with-Stalls none h = h
      with-Stalls (some (h, outputs, ending)) v = v

      round-Stalls :
          (u k : Server D Via Config) (e : Ending)
          (o : Option (Server D Via Config × List (Output D Goal)))
          (go : Server D Via Config → Option (Server D Via Config × List (Output D Goal) × Ending))
          → e ≡ running
          → o ≡ some (k, [])
          → Stalls (go k)
          → Stalls (elim e [
            | canceled ↦ some (u, [], canceled)
            | succeeded ↦ some (u, [], succeeded)
            | running ↦ elim o [
              | none ↦ none
              | some (next, outputs) ↦ with_outputs r step_impl outputs (go next)
            ]
          ])
      round-Stalls u k e o go d f h = rw (d, f) (with-Stalls (go k) h)

      rounds-Stalls :
          (rounds : List (Round D Via Config)) (s : Server D Via Config)
          → All IsUndisturbed rounds
          → All (λ q. q.is_canceling ≡ false) rounds
          → IsStalled s
          → Stalls (execute_rounds r step_impl plan rounds s)
      unfolding execute_rounds
      rounds-Stalls [] s q c v = (v, refl, refl)
      rounds-Stalls (q ∷ rounds) s quiet c v =
          let called = call_all r plan q.before_update s in
          let a = call_all-IsStalled q.before_update s quiet.0.updates v in
          let b = update_state-IsStalled q.is_canceling called c.0 a in
          let updated = update_state r q.is_canceling called in
          let ready = call_all r plan q.before_step updated.0 in
          let d = call_all-IsStalled q.before_step updated.0 quiet.0.steps b.0 in
          round-Stalls updated.0 ready updated.1 (execute_trajectory r step_impl ready)
            (execute_rounds r step_impl plan rounds) b.1 (execute_trajectory_stalled ready d)
            (rounds-Stalls rounds ready quiet.1 c.1 d)

      -- Where a new goal is rejected by its constraints or for want of a pose while another runs, the
      -- running one neither moves nor ends from then on: in any number of rounds without another new goal
      -- or a cancellation it sends nothing, not even feedback.
      pub handle_goal-Stalls :
          (q : Request Via Config) (s : Server D Via Config) (rounds : List (Round D Via Config))
          → (q.is_accepted ≡ false) ⊎ (q.current ≡ none)
          → s.abort ≡ false
          → All IsUndisturbed rounds
          → All (λ x. x.is_canceling ≡ false) rounds
          → ((handle_goal r plan q s).1 ≡ false)
            × Stalls (execute_rounds r step_impl plan rounds (handle_goal r plan q s).0)
      handle_goal-Stalls q s rounds refused a quiet c = (
        (rejected q s refused a).0,
        rounds-Stalls rounds (handle_goal r plan q s).0 quiet c (rejected q s refused a).1,
      )
