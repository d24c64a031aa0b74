-- ===== src/Stats.antt =====
-- Package stats: what workers report, and how it is read back.
pub mod Influx
pub mod Series
pub mod Reader
pub mod Writer
pub mod Examples
