-- ===== src/Logs.antt =====
-- Package logs: the distribution of log messages to the followers of a web page.
pub mod Message
pub mod Distribution
pub mod Follower
pub mod Examples
