-- ===== src/Motion/Server.antt =====
-- panda_motion_generators/base/motion_generator_ros_interface.h: the action server of a motion generator.
-- A goal runs on its own thread, in rounds of `updateState` and `executeTrajectory`; what other threads
-- do in the meantime (callbacks, a new goal) is a list of calls in each round.
pub mod Safety
pub mod Stall
pub mod Finish
use franka_gazebo.Prelude.{
  ℕ, zero, suc, ◌+◌, ltb, Bool, true, false, ◌||◌, not, Option, none, some, List, [], ◌∷◌, ◌++◌,
  if◌then◌else◌, ℤ, pos, negsuc,
}
use franka_gazebo.Motion.{
  Real, Generator, Stepped, held, moved, generate_trajectory, set_current_pose, set_time_scaling,
  start_scaling, step,
}

pub data State : Type 0 where
  idle moving recovery wait_for_recovery : State

pub record Server (D Via Config : Type 0) : Type 0 where
  pub base : Generator D Via Config
  pub state : State
  pub abort : Bool
  pub check_trajectory : Bool
  pub contact : Bool
  pub has_offset : Bool
  pub start_recovery : Bool
  pub time_scaling : D
  pub steps : ℤ
  pub progress : D
  pub time_to_completion : D

-- What is sent: a goal for the controller, the feedback of the action.
pub data Output (D Goal : Type 0) : Type 0 where
  goal : Goal → Output D Goal
  feedback : D → D → Output D Goal

-- How `updateState` leaves the goal, and how a number of rounds leaves it.
pub data Ending : Type 0 where
  running canceled succeeded : Ending

-- A new goal as the derived class finds it: whether `checkGoal` accepts it, the pose that
-- `getCurrentPose` gets, the poses and the configuration.
pub record Request (Via Config : Type 0) : Type 0 where
  pub is_accepted : Bool
  pub current : Option Via
  pub vias : List Via
  pub config : Config

pub data Call (D Via Config : Type 0) : Type 0 where
  scaling : D → ℤ → Call D Via Config
  offset : Bool → Call D Via Config
  recovery_started touched : Call D Via Config
  new_goal : Request Via Config → Call D Via Config

-- A round: the calls before `updateState` and before `executeTrajectory`, and `is_canceling`.
pub record Round (D Via Config : Type 0) : Type 0 where
  pub before_update : List (Call D Via Config)
  pub is_canceling : Bool
  pub before_step : List (Call D Via Config)

-- `executeTrajectory` steps in these states.
abbrev pub is_active : State → Bool
is_active moving = true
is_active recovery = true
is_active idle = false
is_active wait_for_recovery = false

module _ {D Via Config : Type 0} (r : Real D) where
  module _ (plan : Via → List Via → Config → Bool × List D) where
    -- `handle_goal`, which may run while the thread of another goal does.
    unfoldable pub handle_goal :
        Request Via Config → Server D Via Config → Server D Via Config × Bool
    handle_goal q s =
        if not q.is_accepted then (record s { state = idle }, false) else elim q.current [
          | none ↦ (record s { state = idle }, false)
          | some pose ↦
              let (base, done) =
                generate_trajectory r plan q.vias q.config (set_current_pose r pose s.base) in
              (record s { base = base }, done)
        ]

    -- `setTimeScalingCallback` and the other callbacks; an accepted goal gets a thread of its own.
    unfoldable pub call : Call D Via Config → Server D Via Config → Server D Via Config
    call (scaling x n) s = record s { time_scaling = x; steps = n }
    call (offset b) s = record s { has_offset = b }
    call recovery_started s = record s { start_recovery = true }
    call touched s = record s { contact = true }
    call (new_goal q) s = (handle_goal q s).0

    abbrev pub call_all : List (Call D Via Config) → Server D Via Config → Server D Via Config
    call_all [] s = s
    call_all (c ∷ cs) s = call_all cs (call c s)

  -- Both places that hand the time scaling on, where `steps_ > 0`.
  unfoldable pub take_scaling : Server D Via Config → Server D Via Config
  take_scaling s = elim s.steps [
    | negsuc n ↦ s
    | pos zero ↦ s
    | pos (suc n) ↦ record s {
      base = set_time_scaling r s.time_scaling (suc n) s.base;
      steps = pos 0;
    }
  ]

  -- The part of `executeGoal` in front of its loop.
  unfoldable pub begin : Server D Via Config → Server D Via Config
  begin s =
      let s' = take_scaling (record s {
        abort = false;
        contact = false;
        has_offset = false;
        start_recovery = false;
        progress = r.lit 0;
        state = moving;
        check_trajectory = true;
      }) in
      record s' { base = start_scaling r s'.base }

  -- The switch of `updateState`.
  abbrev pub decide : State → Server D Via Config → Server D Via Config × Ending
  decide moving s =
      if r.at_most (r.lit 1) s.progress
      then (record s { state = idle }, succeeded)
      else (s, running)
  decide idle s = (s, running)
  decide recovery s = (s, running)
  decide wait_for_recovery s = (s, running)

  unfoldable pub update_state : Bool → Server D Via Config → Server D Via Config × Ending
  update_state is_canceling s =
      let scaled = take_scaling s in
      if s.abort || is_canceling
      then (record s { state = idle; abort = false }, canceled)
      else decide scaled.state scaled

  module _ {Goal : Type 0} (step_impl : ℕ → D → Goal) where
    abbrev pub after_step :
        Server D Via Config
        → Generator D Via Config × Stepped D Goal
        → Server D Via Config × List (Output D Goal)
    after_step s (base, held) =
        (record s { base = base }, feedback s.progress s.time_to_completion ∷ [])
    after_step s (base, moved g progress left) = (
      record s { base = base; progress = progress; time_to_completion = left },
      goal g ∷ feedback progress left ∷ [],
    )

    unfoldable pub execute_trajectory :
        Server D Via Config → Option (Server D Via Config × List (Output D Goal))
    execute_trajectory s =
        if is_active s.state
        then elim (step r step_impl s.has_offset s.base) [
          | none ↦ none
          | some stepped ↦ some (after_step s stepped)
        ]
        else some (s, [])

    abbrev pub with_outputs :
        List (Output D Goal)
        → Option (Server D Via Config × List (Output D Goal) × Ending)
        → Option (Server D Via Config × List (Output D Goal) × Ending)
    with_outputs xs none = none
    with_outputs xs (some (s, ys, e)) = some (s, xs ++ ys, e)

    -- The loop of `executeGoal` over the rounds.
    unfoldable pub execute_rounds :
        (plan : Via → List Via → Config → Bool × List D)
        → List (Round D Via Config)
        → Server D Via Config
        → Option (Server D Via Config × List (Output D Goal) × Ending)
    execute_rounds plan [] s = some (s, [], running)
    execute_rounds plan (q ∷ rounds) s =
        let (updated, ending) = update_state q.is_canceling (call_all plan q.before_update s) in
        elim ending [
          | canceled ↦ some (updated, [], canceled)
          | succeeded ↦ some (updated, [], succeeded)
          | running ↦ elim (execute_trajectory (call_all plan q.before_step updated)) [
            | none ↦ none
            | some (next, outputs) ↦ with_outputs outputs (execute_rounds plan rounds next)
          ]
        ]
