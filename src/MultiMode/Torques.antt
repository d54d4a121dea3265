-- ===== src/MultiMode/Torques.antt =====
-- `update` of multi_mode_controller.cpp: every active controller writes the torques of its arms, and
-- the command interfaces get the torques of all arms, seven each.
pub mod Delivered
use franka_gazebo.Prelude.{
  ℕ, zero, suc, List, [], ◌∷◌, ◌++◌, Name, get_elem?, set, map, Option, none, some,
}
use franka_gazebo.MultiMode.ControlSet.{Controller, ModeArm, MultiModeController}

module _ {D : Type 0} where
  abbrev pub write_tau : List (ModeArm D) → ℕ → List D → List (ModeArm D)
  write_tau [] i t = []
  write_tau (a ∷ arms) zero t = record a { tau = t } ∷ arms
  write_tau (a ∷ arms) (suc i) t = a ∷ write_tau arms i t

  -- `computeTau` of one controller: what it leaves in the array behind each of its pointers, by the
  -- place of the pointer.
  unfoldable pub compute_tau : List ℕ → (ℕ → List D) → List (ModeArm D) → List (ModeArm D)
  compute_tau [] t arms = arms
  compute_tau (i ∷ is) t arms = compute_tau is (λ n. t (suc n)) (write_tau arms i (t 0))

  unfoldable pub compute_all :
      (Controller → ℕ → List D) → List Controller → List (ModeArm D) → List (ModeArm D)
  unfolding compute_tau
  compute_all torque [] arms = arms
  compute_all torque (x ∷ xs) arms = compute_all torque xs (compute_tau x.tau (torque x) arms)

  -- The values set on `command_interfaces_`, in order.
  abbrev pub commands : List (ModeArm D) → List D
  commands [] = []
  commands (a ∷ arms) = a.tau ++ commands arms

  -- `torque` is what the controllers compute in this cycle.
  unfoldable pub update :
      (Controller → ℕ → List D) → MultiModeController D → MultiModeController D × List D
  unfolding compute_all
  update torque c =
      let arms = compute_all torque c.active_control_set c.arms in
      (record c { arms = arms }, commands arms)
