-- ===== src/Docker.antt =====
-- Package docker: the containers of the workers and clients, on a Docker daemon.
pub mod Id
pub mod Config
pub mod Container
pub mod Cache
pub mod Info
pub mod Daemon
pub mod Manager
