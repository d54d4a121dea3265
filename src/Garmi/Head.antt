-- ===== src/Garmi/Head.antt =====
-- garmi_controllers/src/head_controller.cpp and include/garmi_controllers/head_controller.hpp: the controller
-- of the two joints of the head.
pub mod Limits
use franka_gazebo.Prelude.{◌≡◌, Option, none, some, List, [], ◌∷◌}
use franka_gazebo.Garmi.{Real, limited}

-- The entries of `theta_goal_`, `theta_d_`, `theta_curr_` and `theta_prev_` for one joint.
pub record HeadJoint (D : Type 0) : Type 0 where
  pub theta_goal : D
  pub theta_d : D
  pub theta_curr : D
  pub theta_prev : D

pub record HeadController (D : Type 0) : Type 0 where
  pub k_p : D
  pub k_p_target : D
  pub k_d : D
  pub k_d_target : D
  pub pt1_filter : D
  pub pt1_filter_target : D
  pub pan : HeadJoint D
  pub tilt : HeadJoint D

module _ {D : Type 0} (r : Real D) where
  -- `x * (1.0 - w) + y * w`, as the gains are filtered, and `… + w * y`, as the goal is.
  abbrev pub filtered : (x y w : D) → D
  filtered x y w = r.plus (r.times x (r.minus r.one w)) (r.times y w)

  abbrev pub approached : (x y w : D) → D
  approached x y w = r.plus (r.times x (r.minus r.one w)) (r.times w y)

  -- The argument of `std::max` in `update`.
  abbrev pub pd_torque : (k_p k_d theta_d theta dtheta : D) → D
  pd_torque k_p k_d theta_d theta dtheta =
      r.plus (r.times (r.minus theta_d theta) k_p) (r.times (r.minus r.nought dtheta) k_d)

  -- One round of the loop for the joint `j` with the gains of `h`: the joint and the command.
  abbrev pub move_joint : (period : D) → HeadController D → HeadJoint D → HeadJoint D × D
  move_joint period h j =
      let dtheta = r.over (r.minus j.theta_curr j.theta_prev) period in
      let theta_d = approached j.theta_d j.theta_goal h.pt1_filter in
      (
        record j { theta_d = theta_d; theta_prev = j.theta_curr },
        limited r r.head_force (pd_torque h.k_p h.k_d theta_d j.theta_curr dtheta),
      )

  -- The end of a round.
  abbrev pub filter_gains : HeadController D → HeadController D
  filter_gains h = record h {
    k_p = filtered h.k_p h.k_p_target r.rate;
    k_d = filtered h.k_d h.k_d_target r.rate;
    pt1_filter = filtered h.pt1_filter h.pt1_filter_target r.rate;
  }

  -- `position1` and `position2` are the values of the state interfaces 0 and 3; the result has the commands.
  unfoldable pub update_head :
      (period position1 position2 : D) → HeadController D → HeadController D × D × D
  update_head period position1 position2 h =
      let pan = record h.pan { theta_curr = position1 } in
      let tilt = record h.tilt { theta_curr = position2 } in
      let (pan', tau1) = move_joint period h pan in
      let h1 = filter_gains h in
      let (tilt', tau2) = move_joint period h1 tilt in
      (record (filter_gains h1) { pan = pan'; tilt = tilt' }, tau1, tau2)

  -- `none` where it reads behind the end of the message.
  unfoldable pub command_listener_head : List D → HeadController D → Option (HeadController D)
  command_listener_head [] h = none
  command_listener_head (x ∷ []) h = none
  command_listener_head (x ∷ y ∷ rest) h = some record h {
    pan = record h.pan { theta_goal = limited r r.pan_limit x };
    tilt = record h.tilt { theta_goal = limited r r.tilt_limit y };
  }

  -- The states that messages and cycles lead to from the state `start`.
  pub data HeadReach (start : HeadController D) : HeadController D → Type 0 where
    started : HeadReach start start
    told :
        {h k : HeadController D} (xs : List D)
        → HeadReach start h
        → command_listener_head xs h ≡ some k
        → HeadReach start k
    cycled :
        {h : HeadController D} (period position1 position2 : D)
        → HeadReach start h
        → HeadReach start (update_head period position1 position2 h).0
