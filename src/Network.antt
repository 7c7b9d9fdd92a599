-- ===== src/Network.antt =====
-- src/network: messages and blocks, peers, consensus and the synchronisation of state.
mod Tests
pub mod Message
pub mod Sets
pub mod Consensus
pub mod Peer
pub mod Peers
pub mod Sync
pub mod Manager
pub mod Signing
