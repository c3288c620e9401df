-- ===== src/Decoy.antt =====
-- The decoys of honeypot/extra-services/services.py: what a client sends is logged, never run.
pub mod Latin
pub mod Session
pub mod Http
pub mod Mysql
pub mod Ftp
pub mod Redis
pub mod Serve
