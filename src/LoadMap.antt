-- ===== src/LoadMap.antt =====
-- internal/loadmap: how crowded each config is. Counts of connections are natural numbers, which
-- `Read` keeps free of negative ones and which stay far below 2^63; ids, ports and capacities are
-- integers. A set of addresses is a list.
pub mod Level
pub mod Fleet
pub mod Compute
pub mod Dns
pub mod Cache
pub mod Build
pub mod Redis
pub mod Config
mod Tests
