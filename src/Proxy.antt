-- ===== src/Proxy.antt =====
-- proxy: the DNS server in front of the resolvers.
pub mod Reverse
pub mod Hosts
pub mod Resolve
pub mod Serve
pub mod Pool
pub mod Slots
