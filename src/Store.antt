-- ===== src/Store.antt =====
-- The package store: what the daemon keeps in leveldb. Clients take it as the interface `Database`.
pub mod Types
pub mod Interface
pub mod Leveldb
pub mod Keys
pub mod Ints
pub mod Json
pub mod Transactions
pub mod Views
pub mod Headers
pub mod Names
pub mod Moderation
pub mod Peers
pub mod Commits
pub mod Truncation
pub mod Database
