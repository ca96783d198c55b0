-- ===== src/Traffic.antt =====
-- internal/nodecore/traffic: what a node counts of its client connections.
pub mod Presence
pub mod Usage
pub mod ConnGroup
