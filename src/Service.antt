-- ===== src/Service.antt =====
-- internals/service: the services between the handlers and the repositories.
pub mod Payment
pub mod Wallet
pub mod Auth
