-- ===== src/Config.antt =====
-- config: the values of the settings that choose a profile or a server for a query.
pub mod Profile
pub mod Settings
pub mod Storage
pub mod Flags
pub mod Forwarder
