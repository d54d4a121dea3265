-- ===== src/Common.antt =====
-- franka_hardware/src/common: what the hardware interfaces for the real and the simulated robot share.
pub mod ControlMode
pub mod Double
pub mod Kinds
pub mod Names
