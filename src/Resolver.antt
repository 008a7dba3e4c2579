-- ===== src/Resolver.antt =====
-- resolver/: the response cache and the transports.
pub mod Wire
pub mod Cache
pub mod Cacher
pub mod Dns53
pub mod Doh
pub mod Upstream
