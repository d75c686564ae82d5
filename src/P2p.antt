-- ===== src/P2p.antt =====
-- The package p2p: the peers that are connected, and the gates that new connections pass.
pub mod Muxer
pub mod Manager
pub mod Seeds
