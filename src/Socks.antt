-- ===== src/Socks.antt =====
-- The two ends of a SOCKS connection: handler_socks of source/imconee/handlers.cpp and
-- proxy_socks4 and proxy_socks5 of source/imconee/proxy.cpp.
pub mod Server
pub mod Client
pub mod Select
pub mod Guard
pub mod Agree
pub mod UserId
mod Tests
