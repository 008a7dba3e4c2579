-- ===== src/Host.antt =====
-- host: the DNS settings of the system that the program runs on.
pub mod ResolvConf
pub mod Servers
