-- ===== src/Repository.antt =====
-- internals/repository: the queries of each operation.
pub mod Wallet
pub mod User
