-- ===== src/Tests/Grippers.antt =====
-- Goals of gripper_action_server.cpp, with widths that are numbers or, for `none`, no number.
use franka_gazebo.Prelude.{
  ◌≡◌, refl, ℕ, ◌*◌, ltb, leb, Bool, true, false, not, ◌||◌, ◌&&◌, some, none, [], ◌∷◌, map,
}
use franka_gazebo.Common.Double.{Sample}
use franka_gazebo.Gripper.{
  Width, returned, Poll, execute_gripper_command, GripperState, Motion, move, commands,
  on_execute_gripper_command, with_result, stop_service_callback, thrown, publish_gripper_state,
}
use franka_gazebo.Gripper.Goals.{command_verdict, execute_gripper_command_lem}

abbrev compared : (ℕ → ℕ → Bool) → Sample → Sample → Bool
compared f (some a) (some b) = f a b
compared f _ _ = false

abbrev doubled : Sample → Sample
doubled none = none
doubled (some n) = some (2 * n)

instance abbrev sample_width : Width Sample
sample_width = record {
  nought = some 0;
  twice = doubled;
  less = compared ltb;
  at_least = compared (λ a b. leb b a);
  close = compared (λ a b. leb a b && leb b a);
}

abbrev waiting : Poll Sample
waiting = record { is_ready = false; is_ok = true; is_canceling = false; width = some 3 }

-- The result is there, and the goal is to be canceled as well.
abbrev ready : Poll Sample
ready = record { is_ready = true; is_ok = true; is_canceling = true; width = some 4 }

execute_gripper_command_lem_example :
    execute_gripper_command (waiting ∷ ready ∷ []) true (returned false)
    ≡ some (record {
      feedback = map (λ (q : Poll Sample). q.width) (waiting ∷ []);
      stops = not (ready.is_ready || not ready.is_ok);
      verdict = command_verdict ready true (returned false);
    })
execute_gripper_command_lem_example =
    execute_gripper_command_lem (waiting ∷ []) ready [] true (returned false)
      ((refl, refl, refl), tt) refl

abbrev half_open : GripperState Sample
half_open = record { width = some 4; max_width = some 8 }

abbrev upward : Motion Sample
upward = move (some 6)

is_commanded : on_execute_gripper_command (some 3) (some 1) half_open ≡ commands upward
unfolding on_execute_gripper_command
is_commanded = refl

no_less : (w : Sample) → compared ltb w none ≡ false
no_less none = refl
no_less (some n) = refl

-- The service that stops the gripper reports the exception; a failed reading keeps the state.
not_stopped :
    (stop_service_callback (thrown []) ≡ record { success = false; error = [] })
    × (publish_gripper_state none half_open ≡ half_open)
unfolding stop_service_callback with_result publish_gripper_state
not_stopped = (refl, refl)
