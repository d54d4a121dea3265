-- ===== src/ControllerBase/Ros/Callbacks.antt =====
-- What the messages to a controller of panda_controller_ros_interface.h lead to.
use franka_gazebo.Prelude.{
  ◌+◌, ◌-◌, ◌^◌, ◌<◌, ◌≡◌, refl, arith, Bool, true, false, ◌||◌, Option, none, some, List, [], ◌∷◌,
  if◌then◌else◌, Option-cases, inl, inr, ◌∙◌,
}
use franka_gazebo.ControllerBase.{
  set_buffer, update_buffer, PandaControllerBase, set_desired_pose_buffered, compute_base_tau,
  start, stop,
}
use franka_gazebo.ControllerBase.Ros.{desired_pose_callback}

abbrev pub or_else : {A : Type 0} → Option A → Option A → Option A
or_else none o = o
or_else (some a) o = some a

abbrev pub is_missing : {A : Type 0} → Option A → Bool
is_missing none = true
is_missing (some a) = false

-- The target that waits in the buffer.
abbrev pub pending_of :
    {Pose Parameters : Type 0} → PandaControllerBase Pose Parameters → Option Pose
pending_of c = if c.desired.needs_update then some c.desired.buf else none

module _ {Pose Message : Type 0} (impl : Pose → Message → Option Pose) where
  -- The target of the last message that was accepted, else `pending`.
  abbrev pub last_accepted : (current : Pose) (pending : Option Pose) → List Message → Option Pose
  last_accepted current pending [] = pending
  last_accepted current pending (m ∷ ms) =
      last_accepted current (or_else (impl current m) pending) ms

  abbrev pub any_rejected : (current : Pose) → List Message → Bool
  any_rejected current [] = false
  any_rejected current (m ∷ ms) = is_missing (impl current m) || any_rejected current ms

-- One cycle of `c` after messages that left the target `o` to be taken.
module _ {Pose Parameters : Type 0} where
  abbrev pub Taken :
      (c : PandaControllerBase Pose Parameters) (pose : Pose) (offset : Bool) (o : Option Pose)
      (rejected : Bool)
      → Option (PandaControllerBase Pose Parameters)
      → Type 0
  Taken c pose offset o rejected none = ⊥
  Taken c pose offset o rejected (some k) =
      (k.desired.content ≡ elim o [ none ↦ c.desired.content | some p ↦ p ])
      × (k.move_timeout ≡ elim o [ none ↦ c.move_timeout + 1 | some p ↦ 0 ])
      × (k.current ≡ pose)
      × (k.has_offset ≡ offset)
      × (k.error ≡ (c.error || rejected))

  record AreHeard (c d : PandaControllerBase Pose Parameters) (o : Option Pose) (rejected : Bool)
      : Type 0 where
    current : d.current ≡ c.current
    content : d.desired.content ≡ c.desired.content
    timeout : d.move_timeout ≡ c.move_timeout
    waiting : pending_of d ≡ o
    error : d.error ≡ (c.error || rejected)

  taken :
      (c : PandaControllerBase Pose Parameters) (pose : Pose) (offset : Bool) (o : Option Pose)
      (rejected : Bool) (d : PandaControllerBase Pose Parameters)
      → c.move_timeout < 2 ^ 31 - 1
      → AreHeard c d o rejected
      → Taken c pose offset o rejected (compute_base_tau pose offset d)
  unfolding compute_base_tau update_buffer
  taken c pose offset o rejected d l h = ground arith

module _ {Pose Parameters Message : Type 0} (impl : Pose → Message → Option Pose) where
  -- The messages that come between two cycles.
  abbrev pub callbacks :
      List Message → PandaControllerBase Pose Parameters → PandaControllerBase Pose Parameters
  callbacks [] c = c
  callbacks (m ∷ ms) c = callbacks ms (desired_pose_callback impl m c)

  callbacks-AreHeard :
      (ms : List Message) (c : PandaControllerBase Pose Parameters)
      → AreHeard c
          (callbacks ms c)
          (last_accepted impl c.current (pending_of c) ms)
          (any_rejected impl c.current ms)
  unfolding desired_pose_callback set_desired_pose_buffered set_buffer
  callbacks-AreHeard [] c = ground arith
  callbacks-AreHeard (m ∷ ms) c = elim (Option-cases (impl c.current m)) [
    | inl e ↦ ground (arith, e, callbacks-AreHeard ms (desired_pose_callback impl m c))
    | inr (p, e) ↦ ground (arith, e, callbacks-AreHeard ms (desired_pose_callback impl m c))
  ]

  -- After any messages between two cycles, the next cycle succeeds and takes the target of the last message
  -- that the derived class accepted, and starts to count from it; if none was accepted it takes the target
  -- that was pending, and if none was pending it stays with the old one and counts on. The error is set
  -- exactly if it was or if a message was rejected. The pose that the messages are judged by is the one of
  -- the last cycle.
  pub desired_pose_callback-Taken :
      (ms : List Message) (pose : Pose) (offset : Bool) (c : PandaControllerBase Pose Parameters)
      → c.move_timeout < 2 ^ 31 - 1
      → Taken c pose offset
          (last_accepted impl c.current (pending_of c) ms)
          (any_rejected impl c.current ms)
          (compute_base_tau pose offset (callbacks ms c))
  desired_pose_callback-Taken ms pose offset c l =
      taken c pose offset (last_accepted impl c.current (pending_of c) ms)
        (any_rejected impl c.current ms) (callbacks ms c) l (callbacks-AreHeard ms c)

  start-callback :
      (m : Message) (pose : Pose) (c : PandaControllerBase Pose Parameters)
      → start pose (desired_pose_callback impl m c) ≡ start pose c
  unfolding start desired_pose_callback set_desired_pose_buffered set_buffer update_buffer
  start-callback m pose c = elim (Option-cases (impl c.current m)) [
    | inl e ↦ rw (e, desired_pose_callback) refl
    | inr (p, e) ↦ rw (e, desired_pose_callback) refl
  ]

  start-callbacks :
      (ms : List Message) (pose : Pose) (c : PandaControllerBase Pose Parameters)
      → start pose (callbacks ms c) ≡ start pose c
  start-callbacks [] pose c = refl
  start-callbacks (m ∷ ms) pose c =
      start-callbacks ms pose (desired_pose_callback impl m c) ∙ start-callback m pose c

  start-stop :
      (pose : Pose) (c : PandaControllerBase Pose Parameters) → start pose (stop c) ≡ start pose c
  unfolding start stop set_buffer update_buffer
  start-stop pose c = refl

  -- The subscription of a stopped controller stays, but what it hears is forgotten: a controller that is
  -- stopped, gets any messages and is started again is in the very state in which it would be if it had
  -- been started without them.
  pub start-callbacks-stop :
      (ms : List Message) (pose : Pose) (c : PandaControllerBase Pose Parameters)
      → start pose (callbacks ms (stop c)) ≡ start pose c
  start-callbacks-stop ms pose c = start-callbacks ms pose (stop c) ∙ start-stop pose c
