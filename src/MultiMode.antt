-- ===== src/MultiMode.antt =====
-- franka_multi_mode_controller: the controller that switches between control modes of several arms.
pub mod Resources
pub mod ControlSet
pub mod Setup
pub mod Torques
pub mod Steps
