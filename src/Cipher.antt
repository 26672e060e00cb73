-- ===== src/Cipher.antt =====
-- The shadowsocks stream cipher of source/imconee/cipher_ss.h and cipher_ss.cpp.
pub mod Nonce
pub mod Mode
pub mod Filter
pub mod SkipBuf
pub mod Encipher
pub mod Decipher
pub mod Frames
pub mod Stream
pub mod Sample
mod Tests
