-- ===== src/Schema.antt =====
-- The database: its tables (prisma/schema.prisma) and the queries on them.
pub mod Tables
pub mod Query
pub mod Assets
pub mod Transactions
pub mod Users
pub mod Ledger
