-- ===== src/Robot/Invariant.antt =====
-- The invariant of `Robot` (robot.hpp): which thread may stand beside which flags.
use mathlib.Core.Option.{some-injective}
use franka_gazebo.Prelude.{
  sym, Bool, true, false, Option, none, some, List, ◌≡◌, refl, arith, Bool-cases, inl, inr,
}
use franka_gazebo.Common.ControlMode.{ControlMode}
use franka_gazebo.Common.Double.{Double}
use franka_gazebo.Robot.{
  Robot, RobotState, Loop, Thread, absent, running, returned, joined, stop_robot, start_loop, read,
  write, construct, Connection, connected, refused_for_now, unrecoverable, reading,
}
use franka_gazebo.Robot.Loops.{thread_round, thread_fails}

-- A stopped robot has no thread or one that was joined; another has one that can be joined.
abbrev pub Fits : Bool → Thread → Type 0
Fits true absent = Unit
Fits true joined = Unit
Fits false (running l) = Unit
Fits false returned = Unit
Fits _ _ = ⊥

-- A loop that has ended by itself has left the error behind.
abbrev pub Flagged : Thread → Bool → Type 0
Flagged returned false = ⊥
Flagged _ _ = Unit

module _ {D : Type 0} where
  pub record IsSound (r : Robot D) : Type 0 where
    pub fits : Fits r.stopped r.control_thread
    pub flagged : Flagged r.control_thread r.has_error
    pub unfinished : r.finish ≡ false

-- A method came back, and its result has the property.
abbrev pub Returns : {A : Type 0} → Option A → (A → Type 0) → Type 0
Returns none P = ⊥
Returns (some a) P = P a

pub returned_value :
    {A : Type 0} (P : A → Type 0) (o : Option A) (a : A) → Returns o P → o ≡ some a → P a
returned_value P none a h e = absurd h
returned_value P (some b) a h e = rw (some-injective _ _ (sym e)) h

pub Returns_map :
    {A : Type 0} {P Q : A → Type 0}
    → ((a : A) → P a → Q a)
    → (o : Option A) → Returns o P
    → Returns o Q
Returns_map f none h = h
Returns_map f (some a) h = f a h

module _ {D : Type 0} where
  -- `stopRobot` of a sound robot comes back, and leaves it sound and stopped.
  pub stop_robot-IsSound :
      (r : Robot D) → IsSound r → Returns (stop_robot r) (λ r'. IsSound r' × (r'.stopped ≡ true))
  unfolding stop_robot
  stop_robot-IsSound r v = ground arith

  pub start_loop-IsSound :
      (l : Loop) (r : Robot D)
      → IsSound r
      → r.stopped ≡ true
      → Returns
          (start_loop l r)
          (λ r'. IsSound r' × (r'.control_thread ≡ running l) × (r'.has_error ≡ r.has_error))
  start_loop-IsSound l r v h = ground arith

  pub thread_round-IsSound :
      (l : Loop) (s : RobotState D) (r : Robot D)
      → IsSound r
      → r.control_thread ≡ running l
      → IsSound (thread_round l s r)
  unfolding thread_round
  thread_round-IsSound reading s r v h = ground arith
  thread_round-IsSound _ s r v h = ground arith

  pub thread_fails-IsSound :
      (l : Loop) (r : Robot D) → IsSound r → r.control_thread ≡ running l → IsSound (thread_fails r)
  unfolding thread_fails
  thread_fails-IsSound l r v h = ground arith

  pub write-IsSound :
      (r : Robot D) (e p v cp cv : List D) → IsSound r → IsSound (write e p v cp cv r)
  unfolding write
  write-IsSound r e p v cp cv h = ground arith

  abbrev LeavesSound : Robot D × RobotState D → Type 0
  LeavesSound (r, s) = IsSound r × (r.current_state ≡ s)

  -- No loop runs beside an error.
  abbrev pub IsCalm : Robot D → Type 0
  IsCalm r = (l : Loop) → r.control_thread ≡ running l → r.has_error ≡ false

  -- `read` of a sound robot, if it comes back, leaves it sound and hands out the state that it keeps,
  -- whatever `readOnce` does. It comes back where no loop runs beside an error.
  pub read-IsSound :
      (once : Option (RobotState D)) (r : Robot D) (x : Robot D × RobotState D)
      → IsSound r
      → read once r ≡ some x
      → LeavesSound x
  unfolding read stop_robot
  read-IsSound none r x v e = ground arith
  read-IsSound (some s) r x v e = ground arith

  pub read_calm :
      (once : Option (RobotState D)) (r : Robot D)
      → IsSound r
      → IsCalm r
      → Returns (read once r) LeavesSound
  unfolding read stop_robot
  read_calm none r v c = ground arith
  read_calm (some s) r v c = elim (Bool-cases r.has_error) [
    | inr e ↦ ground (arith, e)
    | inl e ↦ by_thread r.control_thread refl e
  ]
    where
      by_thread :
          (t : Thread)
          → r.control_thread ≡ t
          → r.has_error ≡ true
          → Returns (read (some s) r) LeavesSound
      by_thread absent p e = ground (arith, p, e)
      by_thread (running l) p e = absurd (ground (arith, c l p, e))
      by_thread returned p e = ground (arith, p, e)
      by_thread joined p e = ground (arith, p, e)

module _ {D : Type 0} ⦃d : Double D⦄ where
  -- Every robot that the constructor makes is sound.
  pub construct-IsSound :
      (c : Connection) (s : RobotState D) (m : ControlMode) (home : List D) {r : Robot D}
      → construct c s m home ≡ some r
      → IsSound r
  unfolding construct
  construct-IsSound unrecoverable s m home e = absurd (cc)
  construct-IsSound refused_for_now s m home e = ground arith
  construct-IsSound connected s m home e = ground arith
