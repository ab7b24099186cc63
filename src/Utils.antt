-- ===== src/Utils.antt =====
-- The modules of src/utils.
pub mod Number
pub mod Transaction
pub mod Block
pub mod Config
pub mod Node
pub mod Chain
pub mod Commands
pub mod Network
pub mod Exception
pub mod Path
pub mod Fs
pub mod Download
pub mod GenesisBlock
