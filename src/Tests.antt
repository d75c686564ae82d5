-- ===== src/Tests.antt =====
-- Runs of the models at concrete inputs.
mod Memory
mod Codec
mod Messages
mod Stores
mod Peers
mod Imports
mod Locks
mod Blobs
mod Hashes
mod Queues
mod Updates
mod Servers
