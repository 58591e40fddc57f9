-- ===== src/Tests.antt =====
-- Runs on concrete inputs: one way to meet what `Externals` asks for, and the theorems at inputs
-- that meet their hypotheses.
mod Int
mod Messages
mod Platform
mod Repository
mod Refunds
mod Services
mod Handlers
mod Accounts
