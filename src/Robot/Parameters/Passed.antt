-- ===== src/Robot/Parameters/Passed.antt =====
-- How the services of franka_param_service_server.cpp pass requests on and answer them.
use franka_gazebo.Prelude.{
  ℕ, zero, suc, ◌≡◌, ◌≢◌, refl, ap, subst, arith, true, false, Option, none, some, List, [], ◌∷◌,
  length, replicate,
}
use franka_gazebo.Common.Double.{Double}
use franka_gazebo.Robot.Parameters.{
  Thresholds, ParamRequest, joint_stiffness_request, cartesian_stiffness_request, tcp_frame_request,
  stiffness_frame_request, force_torque_request, full_collision_request, load_request, ParamCall,
  set_joint_impedance, set_cartesian_impedance, set_ee, set_k, set_collision_behavior_4,
  set_collision_behavior_8, set_robot_load, ParamOutcome, accepted, command_exception,
  network_exception, other_exception, ParamResponse, copied_onto, array_of, call_of,
  set_generic_robot_param, param_callback,
}

copied_onto-replicate :
    {D : Type 0} (d : D) (n : ℕ) (xs : List D) → length xs ≡ n → copied_onto xs (replicate n d) ≡ xs
copied_onto-replicate d zero [] h = refl
copied_onto-replicate d zero (x ∷ xs) h = absurd (omega (arith, h))
copied_onto-replicate d (suc n) [] h = absurd (omega (arith, h))
copied_onto-replicate d (suc n) (x ∷ xs) h =
    ap (λ ys. x ∷ ys) (copied_onto-replicate d n xs (omega (arith, h)))

-- The answer that fits the end of a call.
abbrev pub Fits : ParamOutcome → Option ParamResponse → Type 0
Fits accepted none = ⊥
Fits accepted (some a) = a.success ≡ true
Fits other_exception o = o ≡ none
Fits _ none = ⊥
Fits _ (some a) = (a.success ≡ false) × (a.error ≢ [])

set_generic-Fits : (o : ParamOutcome) (r : ParamResponse) → Fits o (set_generic_robot_param o r)
unfolding set_generic_robot_param
set_generic-Fits accepted r = refl
set_generic-Fits command_exception r = (refl, λ e. cc)
set_generic-Fits network_exception r = (refl, λ e. cc)
set_generic-Fits other_exception r = refl

module _ {D : Type 0} where
  abbrev pub AreThresholds : Thresholds D → Type 0
  AreThresholds t =
      (length t.lower_torque ≡ 7)
      × (length t.upper_torque ≡ 7)
      × (length t.lower_force ≡ 6)
      × (length t.upper_force ≡ 6)

  -- The arrays of a request have the sizes that the messages of the services fix.
  abbrev pub IsSizedRequest : ParamRequest D → Type 0
  IsSizedRequest (joint_stiffness_request xs) = length xs ≡ 7
  IsSizedRequest (cartesian_stiffness_request xs) = length xs ≡ 6
  IsSizedRequest (tcp_frame_request xs) = length xs ≡ 16
  IsSizedRequest (stiffness_frame_request xs) = length xs ≡ 16
  IsSizedRequest (force_torque_request t) = AreThresholds t
  IsSizedRequest (full_collision_request a n) = AreThresholds a × AreThresholds n
  IsSizedRequest (load_request mass c i) = (length c ≡ 3) × (length i ≡ 9)

  -- The call that a request asks for.
  abbrev pub asked_for : ParamRequest D → ParamCall D
  asked_for (joint_stiffness_request xs) = set_joint_impedance xs
  asked_for (cartesian_stiffness_request xs) = set_cartesian_impedance xs
  asked_for (tcp_frame_request xs) = set_ee xs
  asked_for (stiffness_frame_request xs) = set_k xs
  asked_for (force_torque_request t) =
      set_collision_behavior_4 t.lower_torque t.upper_torque t.lower_force t.upper_force
  asked_for (full_collision_request a n) =
      set_collision_behavior_8 a.lower_torque a.upper_torque n.lower_torque n.upper_torque
        a.lower_force a.upper_force n.lower_force n.upper_force
  asked_for (load_request mass c i) = set_robot_load mass c i

  module _ ⦃d : Double D⦄ where
    array_of-sized : (n : ℕ) (xs : List D) → length xs ≡ n → array_of n xs ≡ xs
    array_of-sized n xs h = copied_onto-replicate d.nought n xs h

    call_of-asked_for :
        (request : ParamRequest D) → IsSizedRequest request → call_of request ≡ asked_for request
    unfolding call_of
    call_of-asked_for (joint_stiffness_request xs) h =
        ap set_joint_impedance (array_of-sized 7 xs h)
    call_of-asked_for (cartesian_stiffness_request xs) h =
        ap set_cartesian_impedance (array_of-sized 6 xs h)
    call_of-asked_for (tcp_frame_request xs) h = ap set_ee (array_of-sized 16 xs h)
    call_of-asked_for (stiffness_frame_request xs) h = ap set_k (array_of-sized 16 xs h)
    call_of-asked_for (force_torque_request t) (a, b, c, e) =
        let p = array_of-sized 7 t.lower_torque a in
        let q = array_of-sized 7 t.upper_torque b in
        let u = array_of-sized 6 t.lower_force c in
        let v = array_of-sized 6 t.upper_force e in
        λ i. set_collision_behavior_4 (p i) (q i) (u i) (v i)
    call_of-asked_for (full_collision_request t n) ((a, b, c, e), (f, g, j, k)) =
        let p = array_of-sized 7 t.lower_torque a in
        let q = array_of-sized 7 t.upper_torque b in
        let u = array_of-sized 6 t.lower_force c in
        let v = array_of-sized 6 t.upper_force e in
        let p' = array_of-sized 7 n.lower_torque f in
        let q' = array_of-sized 7 n.upper_torque g in
        let u' = array_of-sized 6 n.lower_force j in
        let v' = array_of-sized 6 n.upper_force k in
        λ i. set_collision_behavior_8 (p i) (q i) (p' i) (q' i) (u i) (v i) (u' i) (v' i)
    call_of-asked_for (load_request mass c n) (a, b) =
        let p = array_of-sized 3 c a in
        let q = array_of-sized 9 n b in λ i. set_robot_load mass (p i) (q i)

    -- Each service makes the one call that its request asks for, with the request's numbers unchanged and in
    -- the order of libfranka, and answers as that call ends: success where the arm accepts it, no success
    -- and a text where it ends in an exception of a command or of the network; any other exception ends
    -- the callback without an answer.
    pub param_callback-Fits :
        (arm : ParamCall D → ParamOutcome) (request : ParamRequest D) (r : ParamResponse)
        → IsSizedRequest request
        → (call_of request ≡ asked_for request)
          × Fits (arm (asked_for request)) (param_callback arm request r)
    unfolding param_callback
    param_callback-Fits arm request r h =
        let same = call_of-asked_for request h in
        (
          same,
          subst (λ c. Fits (arm c) (set_generic_robot_param (arm (call_of request)) r)) same
              (set_generic-Fits (arm (call_of request)) r),
        )
