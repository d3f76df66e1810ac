-- ===== src/Chunk/Recorded.antt =====
-- crates/offf-core/src/chunk.rs: the metadata of a chunk that was written.
use openforensicfileformat.Prelude.{ℕ, length, Option, some, ◌++◌, ◌≡◌, ◌⊎◌}
use openforensicfileformat.Bytes.{Bytes, codes}
use openforensicfileformat.Outcome.{ok}
use openforensicfileformat.Hex.{hex_from_bytes32}
use openforensicfileformat.Files.{Files, file}
use openforensicfileformat.Chunk.{Compression, uncompressed, zstd, ChunkMetadata, chunk_path}

module _ (sha256 : Bytes → Bytes) (encode decode : Bytes → Option Bytes) where
  -- What the metadata of a chunk say of its plaintext, and of the file that keeps it: the file lies
  -- where the digest of the plaintext tells and has the stored digest, and it has the stored length
  -- too, unless it was there before.
  pub record IsRecorded (fs : Files) (base : Bytes) (sequence offset : ℕ) (plaintext : Bytes)
      (c : Compression) (meta : ChunkMetadata) (fs' : Files) : Type 0 where
    pub numbered : meta.sequence ≡ sequence
    pub placed : (meta.source_offset ≡ offset) × (meta.source_length ≡ length plaintext)
    pub plain_digest : meta.plaintext_sha256 ≡ hex_from_bytes32 (sha256 plaintext)
    pub id : meta.chunk_id ≡ codes "sha256:" ++ hex_from_bytes32 (sha256 plaintext)
    pub named :
        ((c ≡ uncompressed) × (meta.compression ≡ codes "none"))
        ⊎ ((c ≡ zstd) × (meta.compression ≡ codes "zstd"))
    pub path : Bytes
    pub stored : Bytes
    pub located : chunk_path base (hex_from_bytes32 (sha256 plaintext)) ≡ ok path
    pub on_disk : fs'.at path ≡ some (file stored)
    pub stored_digest : meta.stored_sha256 ≡ hex_from_bytes32 (sha256 stored)
    pub measured : (meta.stored_length ≡ length stored) ⊎ (fs.at path ≡ some (file stored))
