-- ===== src/Tests/Params.antt =====
-- Requests to the services of franka_param_service_server.cpp.
use franka_gazebo.Prelude.{◌≡◌, refl, false, none, some, [], ◌∷◌, replicate}
use franka_gazebo.Common.Double.{Sample, sample_double}
use franka_gazebo.Robot.Parameters.{
  ParamRequest, load_request, stiffness_frame_request, ParamCall, set_k, ParamOutcome, accepted,
  command_exception, other_exception, ParamResponse, call_of, param_callback,
}
use franka_gazebo.Robot.Parameters.Passed.{asked_for, Fits, param_callback-Fits}

abbrev heavy : ParamRequest Sample
heavy = load_request (some 50) (some 1 ∷ some 2 ∷ some 3 ∷ []) (replicate 9 (some 4))

-- An arm that refuses every load.
abbrev arm : ParamCall Sample → ParamOutcome
arm (set_k xs) = other_exception
arm (ParamCall.set_robot_load mass c i) = command_exception
arm _ = accepted

abbrev unanswered : ParamResponse
unanswered = record { success = false; error = [] }

param_callback-Fits_example :
    (call_of heavy ≡ asked_for heavy)
    × Fits (arm (asked_for heavy)) (param_callback arm heavy unanswered)
param_callback-Fits_example = param_callback-Fits arm heavy unanswered (refl, refl)

-- An exception of another kind is not caught.
escaped : param_callback arm (stiffness_frame_request (replicate 16 (some 1))) unanswered ≡ none
unfolding param_callback
escaped = refl
