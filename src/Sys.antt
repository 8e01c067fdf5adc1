-- ===== src/Sys.antt =====
-- The modules under src/sys/: logging, the configuration, system control and hashing.
pub mod Logging
pub mod Sysctl
pub mod Config
pub mod Daemons
pub mod Crypto
