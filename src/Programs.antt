-- ===== src/Programs.antt =====
-- fuels-programs: what surrounds the calls of contracts and scripts.
pub mod ReceiptParser
pub mod ContractCall
pub mod ScriptData
pub mod Dependencies
pub mod CallAssets
