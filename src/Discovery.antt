-- ===== src/Discovery.antt =====
-- discovery: the names of the hosts of the local network.
pub mod Dns
pub mod Dhcp
pub mod Sources
pub mod Routers
pub mod Hosts
pub mod Names
pub mod AntiLoop
pub mod Mdns
pub mod Lookups
