-- ===== src/Config.antt =====
-- Package config: the configuration registry in Redis.
pub mod Id
pub mod Sub
pub mod Redis
pub mod Push
pub mod Url
