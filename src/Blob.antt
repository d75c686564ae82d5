-- ===== src/Blob.antt =====
-- The package blob: a blob is a file of 4096 sectors of 256 bytes.
pub mod Consts
pub mod Io
pub mod Hash
pub mod Transaction
pub mod Pool
