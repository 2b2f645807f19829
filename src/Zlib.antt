-- ===== src/Zlib.antt =====
-- soulseek-rs-lib/src/utils/zlib.rs: the zlib streams that peers' listings and search replies come
-- in, read with a ceiling on what they inflate to, and written with fixed Huffman codes.
pub mod Result
pub mod Reader
pub mod Huffman
pub mod Inflate
pub mod Writer
pub mod Deflate
pub mod Trailer
pub mod Blocks
pub mod RoundTrip
mod Tests
