-- ===== src/Accounts.antt =====
-- fuels-accounts: the parts of the client that keep state of their own.
pub mod Retry
pub mod CoinsCache
pub mod BaseAmount
