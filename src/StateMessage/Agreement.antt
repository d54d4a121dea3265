-- ===== src/StateMessage/Agreement.antt =====
-- The two functions that make messages of a robot's state agree.
use franka_gazebo.Prelude.{ℕ, ◌≡◌, refl, sym, ap, ◌∙◌, true, false, none, some, List, Name}
use franka_gazebo.StateMessage.{
  FullState, FrankaState, mode_number, copy_cartesian, copy_joints, copy_elbows, copy_transforms,
  copy_inertias, copy_centers, Cartesian, Joints, Elbows, Transforms, Inertias, Centers,
}
use franka_gazebo.StateMessage.Component.{
  StateInterface, get_robot_state_ptr, get_values_as_message,
}
use franka_gazebo.StateMessage.Utility.{new_message, get_robot_state_msg}
use franka_gazebo.StateMessage.Copies.{
  SizedCartesian, SizedJoints, SizedElbows, SizedTransforms, SizedInertias, SizedCenters,
  copy_cartesian_all, copy_joints_all, copy_elbows_all, copy_transforms_all, copy_inertias_all,
  copy_centers_all,
}

module _ {D : Type 0} where
  -- The arrays of a state or a message have their sizes.
  pub record AreSized (cartesian : Cartesian D) (joints : Joints D) (elbows : Elbows D)
      (transforms : Transforms D) (inertias : Inertias D) (centers : Centers D) : Type 0 where
    pub sized_cartesian : SizedCartesian cartesian
    pub sized_joints : SizedJoints joints
    pub sized_elbows : SizedElbows elbows
    pub sized_transforms : SizedTransforms transforms
    pub sized_inertias : SizedInertias inertias
    pub sized_centers : SizedCenters centers

  abbrev pub IsSizedState : FullState D → Type 0
  IsSizedState s = AreSized s.cartesian s.joints s.elbows s.transforms s.inertias s.centers

  abbrev pub IsSizedMessage : FrankaState D → Type 0
  IsSizedMessage m = AreSized m.cartesian m.joints m.elbows m.transforms m.inertias m.centers

  -- The message that says of a state what it is.
  abbrev pub message_of : (to_sec : ℕ → D) → FullState D → FrankaState D
  message_of to_sec s = record {
    cartesian = s.cartesian;
    joints = s.joints;
    elbows = s.elbows;
    transforms = s.transforms;
    inertias = s.inertias;
    centers = s.centers;
    masses = s.masses;
    time = to_sec s.time;
    control_command_success_rate = s.control_command_success_rate;
    current_errors = s.current_errors;
    last_motion_errors = s.last_motion_errors;
    robot_mode = mode_number s.robot_mode;
  }

  -- What both functions write over the message `m`.
  abbrev written : (to_sec : ℕ → D) → FullState D → FrankaState D → FrankaState D
  written to_sec s m = record (message_of to_sec s) {
    cartesian = copy_cartesian s.cartesian m.cartesian;
    joints = copy_joints s.joints m.joints;
    elbows = copy_elbows s.elbows m.elbows;
    transforms = copy_transforms s.transforms m.transforms;
    inertias = copy_inertias s.inertias m.inertias;
    centers = copy_centers s.centers m.centers;
  }

  written-message_of :
      (to_sec : ℕ → D) (s : FullState D) (m : FrankaState D)
      → IsSizedState s
      → IsSizedMessage m
      → written to_sec s m ≡ message_of to_sec s
  written-message_of to_sec s m h k = λ i. record (message_of to_sec s) {
    cartesian = copy_cartesian_all s.cartesian m.cartesian h.sized_cartesian k.sized_cartesian i;
    joints = copy_joints_all s.joints m.joints h.sized_joints k.sized_joints i;
    elbows = copy_elbows_all s.elbows m.elbows h.sized_elbows k.sized_elbows i;
    transforms =
        copy_transforms_all s.transforms m.transforms h.sized_transforms k.sized_transforms i;
    inertias = copy_inertias_all s.inertias m.inertias h.sized_inertias k.sized_inertias i;
    centers = copy_centers_all s.centers m.centers h.sized_centers k.sized_centers i;
  }

  new_message-IsSizedMessage : (o : D) → IsSizedMessage (new_message o)
  new_message-IsSizedMessage o = record {
    sized_cartesian = (refl, (refl, (refl, (refl, (refl, (refl, (refl, tt)))))));
    sized_joints = (
      refl,
      (
        refl,
        (refl, (refl, (refl, (refl, (refl, (refl, (refl, (refl, (refl, (refl, (refl, tt))))))))))),
      ),
    );
    sized_elbows = (refl, (refl, (refl, (refl, (refl, tt)))));
    sized_transforms = (refl, (refl, (refl, (refl, (refl, (refl, (refl, tt)))))));
    sized_inertias = (refl, (refl, (refl, tt)));
    sized_centers = (refl, (refl, (refl, tt)));
  }

  get_robot_state_msg_lem :
      (o : D) (to_sec : ℕ → D) (s : FullState D)
      → IsSizedState s
      → get_robot_state_msg o to_sec s ≡ message_of to_sec s
  unfolding get_robot_state_msg
  get_robot_state_msg_lem o to_sec s h =
      written-message_of to_sec s (new_message o) h (new_message-IsSizedMessage o)

  get_values_some :
      (to_sec : ℕ → D) (robot_name : Name) (is : List (StateInterface D)) (m : FrankaState D)
      (s : FullState D)
      → get_robot_state_ptr robot_name is ≡ some s
      → get_values_as_message to_sec robot_name is m ≡ (written to_sec s m, true)
  unfolding get_values_as_message get_robot_state_ptr
  get_values_some to_sec robot_name is m s e = rw (e, get_values_as_message) refl

  get_values_none :
      (to_sec : ℕ → D) (robot_name : Name) (is : List (StateInterface D)) (m : FrankaState D)
      → get_robot_state_ptr robot_name is ≡ none
      → get_values_as_message to_sec robot_name is m ≡ (m, false)
  unfolding get_values_as_message get_robot_state_ptr
  get_values_none to_sec robot_name is m e = rw (e, get_values_as_message) refl

  -- Both functions make the same message of a state, one that holds what the state does: the component, if
  -- it has the robot's state interface, over whatever the message held before, and the utility of the
  -- controllers over a new message. The loops overwrite all entries, as the arrays have their sizes.
  pub get_values_as_message-get_robot_state_msg :
      (nought : D) (to_sec : ℕ → D) (robot_name : Name) (is : List (StateInterface D))
      (m : FrankaState D) (s : FullState D)
      → get_robot_state_ptr robot_name is ≡ some s
      → IsSizedState s
      → IsSizedMessage m
      → (get_values_as_message to_sec robot_name is m ≡ (get_robot_state_msg nought to_sec s, true))
        × (get_robot_state_msg nought to_sec s ≡ message_of to_sec s)
  get_values_as_message-get_robot_state_msg nought to_sec robot_name is m s e h k =
      let new = get_robot_state_msg_lem nought to_sec s h in
      (
        get_values_some to_sec robot_name is m s e
            ∙ ap (λ x. (x, true)) (written-message_of to_sec s m h k ∙ sym new),
        new,
      )
