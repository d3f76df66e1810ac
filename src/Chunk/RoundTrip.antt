-- ===== src/Chunk/RoundTrip.antt =====
-- crates/offf-core/src/chunk.rs: a chunk that was written is read back.
use openforensicfileformat.Prelude.{
  ℕ, Option, some, ◌++◌, ◌≡◌, refl, ◌⊎◌, inl, inr, ap, sym, ◌∙◌, Option-cases,
}
use openforensicfileformat.Bytes.{Bytes, codes}
use openforensicfileformat.Outcome.{ok, ok_injective}
use openforensicfileformat.Merkle.Level.{GivesDigests}
use openforensicfileformat.Merkle.Binding.{IsClash, same_digest, hex_from_bytes32_injective}
use openforensicfileformat.Files.{Files, file, read_file_ok}
use openforensicfileformat.Chunk.{
  Compression, uncompressed, zstd, ChunkMetadata, chunk_path, or_error, hex_sha256, compress,
  decompress, metadata, write_chunk, read_chunk,
}
use openforensicfileformat.Chunk.Stored.{
  stored_file, written, read_chunk_ok, decompress_named-compression_str,
}

module _ (sha256 : Bytes → Bytes) (encode decode : Bytes → Option Bytes) where
  -- What the crate `zstd` documents: what was compressed is decompressed.
  abbrev pub Decompresses : Type 0
  Decompresses = (plain stored : Bytes) → encode plain ≡ some stored → decode stored ≡ some plain

  pub decompress-compress :
      Decompresses
      → (c : Compression) (id plain stored : Bytes) → compress encode c id plain ≡ ok stored
      → decompress decode c id stored ≡ ok plain
  unfolding compress decompress or_error
  decompress-compress z uncompressed id plain stored e = ap ok (sym (ok_injective e))
  decompress-compress z zstd id plain stored e = elim (Option-cases (encode plain)) [
    | inl p ↦ cc (rw (p, or_error) at e)
    | inr (s, p) ↦
        let same : s ≡ stored = ok_injective (rw (p, or_error) at e) in
        rw (z plain stored (p ∙ ap some same), or_error) refl
  ]

  same_hex :
      GivesDigests sha256
      → (a b : Bytes) → hex_sha256 sha256 a ≡ hex_sha256 sha256 b
      → (a ≡ b) ⊎ IsClash sha256 a b
  unfolding hex_sha256
  same_hex g a b e =
      same_digest sha256 a b (hex_from_bytes32_injective (sha256 a) (sha256 b) (g a) (g b) e)

  read_stored :
      (fs : Files) (base : Bytes) (sequence offset : ℕ) (plaintext : Bytes) (c : Compression)
      (path original stored plain : Bytes)
      → chunk_path base (hex_sha256 sha256 plaintext) ≡ ok path
      → fs.at path ≡ some (file stored)
      → hex_sha256 sha256 stored ≡ hex_sha256 sha256 original
      → decompress decode c (codes "sha256:" ++ hex_sha256 sha256 plaintext) stored ≡ ok plain
      → hex_sha256 sha256 plain ≡ hex_sha256 sha256 plaintext
      → read_chunk sha256 encode decode fs base
          (metadata sha256 sequence offset plaintext c original)
        ≡ ok plain
  unfolding metadata
  read_stored fs base sequence offset plaintext c path original stored plain p f s d h =
      read_chunk_ok sha256 encode decode fs base
        (metadata sha256 sequence offset plaintext c original) path stored plain p f s
        (decompress_named-compression_str sha256 encode decode c _ stored ∙ d) h

  -- If `write_chunk` succeeds, whether it wrote the file or found one, `read_chunk` with the
  -- metadata that it returned gives the plaintext back, or other bytes with the digest of the
  -- plaintext.
  pub read_chunk-write_chunk :
      (fs fs' : Files) (base : Bytes) (sequence offset : ℕ) (plaintext : Bytes) (c : Compression)
      (meta : ChunkMetadata)
      → GivesDigests sha256
      → Decompresses
      → write_chunk sha256 encode decode fs base sequence offset plaintext c ≡ (ok meta, fs')
      → (read_chunk sha256 encode decode fs' base meta ≡ ok plaintext)
        ⊎ ((other : Bytes) × (read_chunk sha256 encode decode fs' base meta ≡ ok other)
            × IsClash sha256 other plaintext)
  read_chunk-write_chunk fs fs' base sequence offset plaintext c meta g z e =
      let w = written sha256 encode decode fs fs' base sequence offset plaintext c meta e in
      elim (stored_file sha256 encode decode fs fs' w.path c _ _ _ w.stored w.kept) [
        | inl new ↦ inl (
            ap (read_chunk sha256 encode decode fs' base) (sym w.described)
            ∙ read_stored fs' base sequence offset plaintext c w.path w.stored w.stored plaintext
                w.located new refl (decompress-compress z c _ plaintext w.stored w.compressed) refl)
        | inr (same, x) ↦
            let got =
              ap (λ t. read_chunk sha256 encode decode t base meta) same
              ∙ ap (read_chunk sha256 encode decode fs base) (sym w.described)
              ∙ read_stored fs base sequence offset plaintext c w.path w.stored x.stored x.plain
                  w.located (read_file_ok fs w.path x.stored x.was_read) x.stored_right x.decoded
                  x.plain_right in
            elim (same_hex g x.plain plaintext x.plain_right) [
              | inl q ↦ inl (got ∙ ap ok q)
              | inr k ↦ inr (x.plain, got, k)
            ]
      ]
