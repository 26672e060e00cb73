-- ===== src/Cipher/Stream.antt =====
-- The stream of chunks read back: aead_cryptor::decipher of source/imconee/cipher_ss.cpp, fed with the
-- bytes of a stream in any pieces.
pub mod Chunk
pub mod Loop
pub mod Feed
