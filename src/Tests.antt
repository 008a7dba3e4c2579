-- ===== src/Tests.antt =====
-- The theorems at concrete inputs, and runs of the definitions.
pub mod Messages
pub mod Announcements
pub mod Slots
pub mod Upstreams
pub mod Routers
pub mod Caching
pub mod Control
pub mod Readers
pub mod Lookups
pub mod Providers
pub mod Storage
pub mod System
pub mod Caches
pub mod Plain
pub mod Https
pub mod Endpoints
pub mod Fallback
pub mod Queries
pub mod Proxies
pub mod Settings
pub mod Hosts
pub mod Interfaces
