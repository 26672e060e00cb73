-- ===== src/Settings.antt =====
-- The settings tree of source/imconee/sts.h and sts.cpp, and what the loader of loader.cpp reads from it.
pub mod Text
pub mod Tokens
pub mod Tree
pub mod Read
pub mod Enough
pub mod Fuel
pub mod Store
pub mod Values
pub mod Trim
pub mod Stored
pub mod RoundTrip
mod Tests
