-- ===== src/Dns.antt =====
-- package/zebrafish-dns: the DNS forwarder and the NSS module that uses it.
pub mod QueryLog
pub mod Nss
pub mod Hickory
pub mod Lru
pub mod Cache
pub mod Config
pub mod Doh
pub mod Server
pub mod Startup
mod Tests
mod ServerTests
mod UdpTests
mod LookupTests
mod StartupTests
mod TasksTests
