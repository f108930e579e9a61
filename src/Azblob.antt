-- ===== src/Azblob.antt =====
-- The upload in blocks of pkg/azblob/chunkwriting.go: block ids, `sendChunk`, `write` and `close`.
pub mod Base64
pub mod Ids
pub mod Copier
