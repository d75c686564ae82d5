-- ===== src/Protocol.antt =====
-- The package protocol: epochs, peer sets, the update queue, the updater, and the servers.
pub mod Epoch
pub mod PeerSet
pub mod UpdateQueue
pub mod Updater
pub mod Validate
pub mod Syncer
pub mod SectorServer
pub mod UpdateServer
pub mod NameImporter
pub mod BanLists
