-- ===== src/Logstream.antt =====
-- internal/logstream: a process's own log lines, kept in a ring and mirrored into Redis.
pub mod Level
pub mod Ring
pub mod Publisher
pub mod Filter
mod Tests
