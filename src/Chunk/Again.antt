-- ===== src/Chunk/Again.antt =====
-- crates/offf-core/src/chunk.rs: a chunk that is written again.
use openforensicfileformat.Prelude.{ℕ, ◌++◌, ◌≡◌, refl, inl, inr, ap, ◌∙◌, true, some, Option}
use openforensicfileformat.Bytes.{Bytes, codes, eq→bytes_eq}
use openforensicfileformat.Outcome.{Result, ok}
use openforensicfileformat.Files.{Files, file, exists, read_file, read_file_ok}
use openforensicfileformat.Chunk.{
  Compression, ChunkMetadata, chunk_path, hex_sha256, compress, decompress, check_existing, store,
  metadata, prepare, write_prepared, write_chunk, finish,
}
use openforensicfileformat.Chunk.Stored.{stored_file, written}
use openforensicfileformat.Chunk.RoundTrip.{Decompresses, decompress-compress}

-- The chunk of a plaintext, at another place of the image.
abbrev pub placed_at : ChunkMetadata → ℕ → ℕ → ChunkMetadata
placed_at meta sequence offset = record meta { sequence = sequence; source_offset = offset }

module _ (sha256 : Bytes → Bytes) (encode decode : Bytes → Option Bytes) where
  -- A file whose digests are right is left as it is.
  store_there :
      (fs : Files) (path : Bytes) (c : Compression)
      (id plain_hash stored_hash x bytes plain : Bytes)
      → fs.at path ≡ some (file x)
      → hex_sha256 sha256 x ≡ stored_hash
      → decompress decode c id x ≡ ok plain
      → hex_sha256 sha256 plain ≡ plain_hash
      → store sha256 encode decode fs path c id plain_hash stored_hash bytes ≡ (ok tt, fs)
  unfolding store check_existing exists read_file
  store_there fs path c id plain_hash stored_hash x bytes plain f s d p =
      rw (exists_true, read_true, eq→bytes_eq _ _ s, d, eq→bytes_eq _ _ p) refl
    where
      exists_true : exists fs path ≡ true
      exists_true = rw (f, exists) refl

      read_true : read_file fs path ≡ ok x
      read_true = rw (f, read_file) refl

  prepared :
      (base plaintext : Bytes) (c : Compression) (stored path : Bytes)
      → compress encode c (codes "sha256:" ++ hex_sha256 sha256 plaintext) plaintext ≡ ok stored
      → chunk_path base (hex_sha256 sha256 plaintext) ≡ ok path
      → prepare sha256 encode decode base plaintext c ≡ ok (stored, path)
  unfolding prepare
  prepared base plaintext c stored path p q = rw (p, q) refl

  writes_again :
      (fs : Files) (base : Bytes) (sequence offset : ℕ) (plaintext : Bytes) (c : Compression)
      (stored path x plain : Bytes)
      → compress encode c (codes "sha256:" ++ hex_sha256 sha256 plaintext) plaintext ≡ ok stored
      → chunk_path base (hex_sha256 sha256 plaintext) ≡ ok path
      → fs.at path ≡ some (file x)
      → hex_sha256 sha256 x ≡ hex_sha256 sha256 stored
      → decompress decode c (codes "sha256:" ++ hex_sha256 sha256 plaintext) x ≡ ok plain
      → hex_sha256 sha256 plain ≡ hex_sha256 sha256 plaintext
      → write_chunk sha256 encode decode fs base sequence offset plaintext c
        ≡ (ok (metadata sha256 sequence offset plaintext c stored), fs)
  unfolding write_chunk
  writes_again fs base sequence offset plaintext c stored path x plain p q f s d h =
      ap (write_prepared sha256 encode decode fs sequence offset plaintext c)
        (prepared base plaintext c stored path p q)
      ∙ ap (λ r. finish r (metadata sha256 sequence offset plaintext c stored))
          (store_there fs path c _ _ _ x stored plain f s d h)

  -- Bytes that were written once are written again without an error, for any number and offset: no
  -- file changes, and the metadata differ from the first in the number and the offset alone.
  pub write_chunk_again :
      (fs fs' : Files) (base : Bytes) (sequence offset sequence' offset' : ℕ) (plaintext : Bytes)
      (c : Compression) (meta : ChunkMetadata)
      → Decompresses sha256 encode decode
      → write_chunk sha256 encode decode fs base sequence offset plaintext c ≡ (ok meta, fs')
      → write_chunk sha256 encode decode fs' base sequence' offset' plaintext c
        ≡ (ok (placed_at meta sequence' offset'), fs')
  unfolding metadata
  write_chunk_again fs fs' base sequence offset sequence' offset' plaintext c meta z e =
      let w = written sha256 encode decode fs fs' base sequence offset plaintext c meta e in
      let again : ◌≡◌ {A = Result ChunkMetadata × Files}
          (ok (metadata sha256 sequence' offset' plaintext c w.stored), fs')
          (ok (placed_at meta sequence' offset'), fs') =
        ap (λ m. (ok (placed_at m sequence' offset'), fs')) w.described in
      elim (stored_file sha256 encode decode fs fs' w.path c _ _ _ w.stored w.kept) [
        | inl new ↦
            writes_again fs' base sequence' offset' plaintext c w.stored w.path w.stored plaintext
              w.compressed w.located new refl
              (decompress-compress sha256 encode decode z c _ plaintext w.stored w.compressed) refl
            ∙ again
        | inr (same, x) ↦
            writes_again fs' base sequence' offset' plaintext c w.stored w.path x.stored x.plain
              w.compressed w.located
              (ap (λ (t : Files). t.at w.path) same ∙ read_file_ok fs w.path x.stored x.was_read)
              x.stored_right x.decoded x.plain_right
            ∙ again
      ]
