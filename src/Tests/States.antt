-- ===== src/Tests/States.antt =====
-- A state of a robot and its message.
use franka_gazebo.Prelude.{ℕ, ◌≡◌, refl, true, some, List, [], ◌∷◌, codes, replicate}
use franka_gazebo.StateMessage.{FullState, FrankaState, mode_reflex}
use franka_gazebo.StateMessage.Component.{
  StateInterface, get_robot_state_ptr, get_values_as_message,
}
use franka_gazebo.StateMessage.Utility.{no_errors, new_message, get_robot_state_msg}
use franka_gazebo.StateMessage.Agreement.{
  IsSizedState, IsSizedMessage, message_of, get_values_as_message-get_robot_state_msg,
}

abbrev pub in_reflex : FullState ℕ
in_reflex = record {
  cartesian = record {
    cartesian_collision = replicate 6 1;
    cartesian_contact = replicate 6 2;
    k_f_ext_hat_k = replicate 6 3;
    o_f_ext_hat_k = replicate 6 4;
    o_dp_ee_d = replicate 6 5;
    o_dp_ee_c = replicate 6 6;
    o_ddp_ee_c = replicate 6 7;
  };
  joints = record {
    q = replicate 7 8;
    q_d = replicate 7 9;
    dq = replicate 7 10;
    dq_d = replicate 7 11;
    ddq_d = replicate 7 12;
    tau_j = replicate 7 13;
    dtau_j = replicate 7 14;
    tau_j_d = replicate 7 15;
    theta = replicate 7 16;
    dtheta = replicate 7 17;
    joint_collision = replicate 7 18;
    joint_contact = replicate 7 19;
    tau_ext_hat_filtered = replicate 7 20;
  };
  elbows = record {
    elbow = replicate 2 21;
    elbow_d = replicate 2 22;
    elbow_c = replicate 2 23;
    delbow_c = replicate 2 24;
    ddelbow_c = replicate 2 25;
  };
  transforms = record {
    o_t_ee = replicate 16 26;
    f_t_ee = replicate 16 27;
    f_t_ne = replicate 16 28;
    ne_t_ee = replicate 16 29;
    ee_t_k = replicate 16 30;
    o_t_ee_d = replicate 16 31;
    o_t_ee_c = replicate 16 32;
  };
  inertias = record { i_ee = replicate 9 33; i_load = replicate 9 34; i_total = replicate 9 35 };
  centers = record {
    f_x_cee = replicate 3 36;
    f_x_cload = replicate 3 37;
    f_x_ctotal = replicate 3 38;
  };
  masses = record { m_ee = 1; m_load = 2; m_total = 3 };
  time = 1000;
  control_command_success_rate = 1;
  current_errors = record no_errors { cartesian_reflex = true };
  last_motion_errors = no_errors;
  robot_mode = mode_reflex;
}

in_reflex-IsSizedState : IsSizedState in_reflex
in_reflex-IsSizedState = record {
  sized_cartesian = (refl, (refl, (refl, (refl, (refl, (refl, (refl, tt)))))));
  sized_joints = (
    refl,
    (
      refl,
      (refl, (refl, (refl, (refl, (refl, (refl, (refl, (refl, (refl, (refl, (refl, tt))))))))))),
    ),
  );
  sized_elbows = (refl, (refl, (refl, (refl, (refl, tt)))));
  sized_transforms = (refl, (refl, (refl, (refl, (refl, (refl, (refl, tt)))))));
  sized_inertias = (refl, (refl, (refl, tt)));
  sized_centers = (refl, (refl, (refl, tt)));
}

abbrev old : FrankaState ℕ
old = new_message 9

-- An interface of another kind stands in front.
abbrev interfaces : List (StateInterface ℕ)
interfaces =
    record { interface_name = codes "panda/robot_model"; target = in_reflex }
    ∷ record { interface_name = codes "panda/robot_state"; target = in_reflex }
    ∷ []

is_found : get_robot_state_ptr (codes "panda") interfaces ≡ some in_reflex
unfolding get_robot_state_ptr
is_found = refl

old-IsSizedMessage : IsSizedMessage old
old-IsSizedMessage = record {
  sized_cartesian = (refl, (refl, (refl, (refl, (refl, (refl, (refl, tt)))))));
  sized_joints = (
    refl,
    (
      refl,
      (refl, (refl, (refl, (refl, (refl, (refl, (refl, (refl, (refl, (refl, (refl, tt))))))))))),
    ),
  );
  sized_elbows = (refl, (refl, (refl, (refl, (refl, tt)))));
  sized_transforms = (refl, (refl, (refl, (refl, (refl, (refl, (refl, tt)))))));
  sized_inertias = (refl, (refl, (refl, tt)));
  sized_centers = (refl, (refl, (refl, tt)));
}

get_values_as_message-get_robot_state_msg_example :
    (get_values_as_message (λ ms. ms) (codes "panda") interfaces old
      ≡ (get_robot_state_msg 0 (λ ms. ms) in_reflex, true))
    × (get_robot_state_msg 0 (λ ms. ms) in_reflex ≡ message_of (λ ms. ms) in_reflex)
get_values_as_message-get_robot_state_msg_example =
    get_values_as_message-get_robot_state_msg 0 (λ ms. ms) (codes "panda") interfaces old in_reflex
      is_found in_reflex-IsSizedState old-IsSizedMessage
