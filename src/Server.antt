-- ===== src/Server.antt =====
-- internals/server: the handlers of the requests.
pub mod Http
pub mod Webhook
pub mod Transfers
pub mod Sessions
pub mod Wallets
pub mod Payments
pub mod Users
pub mod Rates
pub mod Health
pub mod Routes
