-- ===== src/Assets.antt =====
-- src/assets: the genesis assets, module by module.
pub mod Auth
pub mod Interoperability
pub mod Legacy
pub mod Token
pub mod Pos
