-- ===== src/Control.antt =====
-- Package control: the manager of clients and workers.
pub mod Types
pub mod Entries
pub mod Calls
pub mod Keeps
pub mod Clients
pub mod Workers
pub mod Manager
pub mod Configs
pub mod Auth
pub mod Web
