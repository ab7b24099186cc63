-- ===== src/Tests.antt =====
-- Runs of the modelled code on small inputs.
pub mod Data
pub mod Assets
pub mod Supply
pub mod Keys
pub mod Utils
pub mod Command
pub mod Blocks
pub mod Migration
pub mod Run
pub mod Completes
pub mod Moves
pub mod Files
