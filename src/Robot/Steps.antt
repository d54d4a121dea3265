-- ===== src/Robot/Steps.antt =====
-- The life of a `Robot` of robot.cpp as steps: calls of its methods by the hardware interface and the
-- services, in any order, interleaved with the rounds of its control thread.
use franka_gazebo.Prelude.{Bool, true, false, ◌||◌, Option, none, some, List, ◌≡◌, arith}
use franka_gazebo.Common.ControlMode.{ControlMode}
use franka_gazebo.Common.Double.{Double}
use franka_gazebo.Robot.{
  Robot, RobotState, Loop, Call, done, thrown, running, stop_robot, start_loop, read, write,
}
use franka_gazebo.Robot.Loops.{thread_round, thread_fails}
use franka_gazebo.Robot.Recovery.{
  IsStuck, is_thrown, trigger_automatic_recovery, trigger_automatic_recovery-IsStuck,
}
use franka_gazebo.Robot.Invariant.{IsSound, Returns, Returns_map}

module _ {D : Type 0} where
  -- The flag says whether libfranka's `stop` throws in a recovery.
  pub data Step (r u : Robot D) : Bool → Type 0 where
    stops : stop_robot r ≡ some u → Step r u false
    starts : (l : Loop) → start_loop l r ≡ some u → Step r u false
    reads :
        (once : Option (RobotState D)) (s : RobotState D)
        → read once r ≡ some (u, s)
        → Step r u false
    writes : (e p v cp cv : List D) → u ≡ write e p v cp cv r → Step r u false
    recovers :
        (recovery stop params : Call) (ok : Bool)
        → trigger_automatic_recovery recovery stop params r ≡ some (u, ok)
        → Step r u (is_thrown stop)
    rounds :
        (l : Loop) (s : RobotState D)
        → r.control_thread ≡ running l
        → u ≡ thread_round l s r
        → Step r u false
    fails : (l : Loop) → r.control_thread ≡ running l → u ≡ thread_fails r → Step r u false

  -- A history; the flag says whether `stop` has thrown in a recovery.
  pub data Reach (r : Robot D) : Bool → Robot D → Type 0 where
    here : Reach r false r
    next :
        {t u : Robot D} {thrown_before throws : Bool}
        → Reach r thrown_before t
        → Step t u throws
        → Reach r (thrown_before || throws) u

  IsStuck-stop_robot : (r : Robot D) → IsStuck r → stop_robot r ≡ none
  unfolding stop_robot
  IsStuck-stop_robot r v = ground arith

  thrown-IsStuck :
      (params : Call) (r : Robot D)
      → IsSound r
      → r.has_error ≡ true
      → r.stopped ≡ false
      → Returns (trigger_automatic_recovery done thrown params r) (λ x. (x.1 ≡ false) × IsStuck x.0)
  unfolding trigger_automatic_recovery
  thrown-IsStuck params r v e n = ground arith

  -- The robot is stuck, no recovery changes it whatever libfranka does, and stopping it ends the process.
  abbrev pub IsLost : Robot D × Bool → Type 0
  IsLost (u, ok) =
      (ok ≡ false)
      × IsStuck u
      × ((recovery stop params : Call)
          → trigger_automatic_recovery recovery stop params u ≡ some (u, false))
      × (stop_robot u ≡ none)

  -- A recovery of a sound robot with an error whose loop has not been stopped: where libfranka recovers it
  -- but `stop` throws, the service answers with a failure and leaves the robot without the error, marked as
  -- running with a joined thread. Every later recovery is refused and changes nothing, and the next
  -- `stopRobot` ends the process.
  pub trigger_automatic_recovery-IsLost :
      (params : Call) (r : Robot D)
      → IsSound r
      → r.has_error ≡ true
      → r.stopped ≡ false
      → Returns (trigger_automatic_recovery done thrown params r) IsLost
  trigger_automatic_recovery-IsLost params r v e n =
      Returns_map
        (λ (u, ok) k. (
          k.0,
          k.1,
          λ x y z. trigger_automatic_recovery-IsStuck x y z u k.1,
          IsStuck-stop_robot u k.1,
        ))
        (trigger_automatic_recovery done thrown params r) (thrown-IsStuck params r v e n)
